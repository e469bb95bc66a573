-- ===== src/Chat/Room/Views.antt =====
-- What the server's state and calls look like from outside: the room, what was read and what was
-- written.
use completed_projects.Common.{
  ℕ, zero, suc, ◌<◌, ◌≤◌, ℤ, Bool, Bool-cases, inl, inr, some, get_elem?, get_or, take, List, [],
  ◌∷◌, ◌++◌, ◌≡◌, refl, sym, ap, ◌∙◌, map, length, erase_idx, append_assoc, append-nil, arith,
}
use completed_projects.Chat.Blather.{Mesg, Client, Server, zero_client}
use completed_projects.Chat.Os.{
  Os, Trace, Syscall, Reply, read_mesg, read_join, write_mesg, mesg_read, join_read,
}
use completed_projects.Chat.Server.{clients, mark_ready, server_get_client}
use completed_projects.Chat.Server.Broadcast.{sends}
use completed_projects.Chat.Server.Handle.{clear_at}
use completed_projects.Chat.Room.{Member, Room, Delivery, tell, Input, asked, said}

-- A client without its flag and its times.
abbrev pub member_of : Client → Member
member_of c = record { name = c.name; hears = c.to_client_fd; speaks = c.to_server_fd }

abbrev pub room_of : List Client → Room
room_of = map member_of

abbrev pub room : Server → Room
room s = room_of (clients s)

abbrev pub written : Syscall → List Delivery
written (write_mesg fd m) = (fd, m) ∷ []
written _ = []

-- All messages that were written, in order.
abbrev pub deliveries : Trace → List Delivery
deliveries [] = []
deliveries (c ∷ t) = written c ++ deliveries t

abbrev pub input_of : Syscall → Reply → List Input
input_of (read_mesg fd) r = said fd (mesg_read r r.ret) ∷ []
input_of (read_join fd) r = asked (join_read r r.ret) ∷ []
input_of _ r = []

-- All that was read in the calls behind some others, in order.
abbrev pub inputs : Os → Trace → Trace → List Input
inputs os pre [] = []
inputs os pre (c ∷ t) = input_of c (os pre c) ++ inputs os (pre ++ c ∷ []) t

pub deliveries-append : (t u : Trace) → deliveries (t ++ u) ≡ deliveries t ++ deliveries u
deliveries-append [] u = refl
deliveries-append (c ∷ t) u =
    ap (◌++◌ (written c)) (deliveries-append t u)
    ∙ sym (append_assoc (written c) (deliveries t) (deliveries u))

pub inputs-append :
    (os : Os) (pre t u : Trace) → inputs os pre (t ++ u) ≡ inputs os pre t ++ inputs os (pre ++ t) u
inputs-append os pre [] u = ap (λ p. inputs os p u) (sym (append-nil pre))
inputs-append os pre (c ∷ t) u =
    ap (◌++◌ (input_of c (os pre c))) (
      inputs-append os (pre ++ c ∷ []) t u
      ∙ ap (λ p. inputs os (pre ++ c ∷ []) t ++ inputs os p u) (append_assoc pre (c ∷ []) t))
    ∙ sym (
        append_assoc (input_of c (os pre c)) (inputs os (pre ++ c ∷ []) t)
          (inputs os (pre ++ c ∷ t) u))

-- A broadcast reads nothing, and tells the whole room.
pub inputs-sends :
    (os : Os) (pre : Trace) (m : Mesg) (cs : List Client) → inputs os pre (sends m cs) ≡ []
inputs-sends os pre m [] = refl
inputs-sends os pre m (c ∷ cs) = inputs-sends os (pre ++ write_mesg c.to_client_fd m ∷ []) m cs

pub deliveries-sends : (m : Mesg) (cs : List Client) → deliveries (sends m cs) ≡ tell m (room_of cs)
deliveries-sends m [] = refl
deliveries-sends m (c ∷ cs) = ap (◌∷◌ (c.to_client_fd, m)) (deliveries-sends m cs)

pub room_of-clear_at : (cs : List Client) (i : ℕ) → room_of (clear_at cs i) ≡ room_of cs
room_of-clear_at [] i = refl
room_of-clear_at (c ∷ cs) zero = refl
room_of-clear_at (c ∷ cs) (suc i) = ap (◌∷◌ (member_of c)) (room_of-clear_at cs i)

pub room_of-mark_ready :
    (ready : ℤ → Bool) (cs : List Client) → room_of (map (mark_ready ready) cs) ≡ room_of cs
room_of-mark_ready ready [] = refl
room_of-mark_ready ready (c ∷ cs) = elim (Bool-cases (ready c.to_server_fd)) [
  | inl e ↦ rw e (ap (◌∷◌ (member_of c)) (room_of-mark_ready ready cs))
  | inr e ↦ rw e (ap (◌∷◌ (member_of c)) (room_of-mark_ready ready cs))
]

pub room_of-erase_idx :
    (cs : List Client) (i : ℕ) → room_of (erase_idx cs i) ≡ erase_idx (room_of cs) i
room_of-erase_idx [] i = refl
room_of-erase_idx (c ∷ cs) zero = refl
room_of-erase_idx (c ∷ cs) (suc i) = ap (◌∷◌ (member_of c)) (room_of-erase_idx cs i)

pub room_of-append : (cs ds : List Client) → room_of (cs ++ ds) ≡ room_of cs ++ room_of ds
room_of-append [] ds = refl
room_of-append (c ∷ cs) ds = ap (◌∷◌ (member_of c)) (room_of-append cs ds)

get_elem?-room_of :
    (n i : ℕ) (a : List Client)
    → i < n
    → n ≤ length a
    → get_elem? (room_of (take n a)) i ≡ some (member_of (get_or a i zero_client))
get_elem?-room_of zero i a h k = absurd (omega arith)
get_elem?-room_of (suc n) i [] h k = absurd (omega arith)
get_elem?-room_of (suc n) zero (c ∷ a) h k = refl
get_elem?-room_of (suc n) (suc i) (c ∷ a) h k = get_elem?-room_of n i a (omega arith) (omega arith)

-- The member at an index of the array.
pub room-server_get_client :
    (s : Server) (i : ℕ)
    → i < s.n_clients
    → s.n_clients ≤ length s.client
    → get_elem? (room s) i ≡ some (member_of (server_get_client s i))
room-server_get_client s i h k = get_elem?-room_of s.n_clients i s.client h k
