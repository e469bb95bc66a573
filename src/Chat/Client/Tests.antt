-- ===== src/Chat/Client/Tests.antt =====
-- Runs of the chat client at concrete inputs.
use completed_projects.Common.{
  ◌≢◌, ◌<◌, ◌≤◌, ◌+◌, ◌-◌, ◌*◌, length, some, map, ℕ, ℤ, pos, minus_one, false, true, List, [], ◌∷◌,
  ◌++◌, ◌≡◌, refl, replicate, take, drop, arith,
}
use completed_projects.Common.CString.{Bytes, codes, c_str}
use completed_projects.Chat.Blather.{
  max_line, max_clients, zero_mesg, bl_shutdown, bl_joined, zero_join, Mesg, zero_server,
}
use completed_projects.Chat.Os.{Os, Trace, write_join, ok}
use completed_projects.Chat.Server.{push_client, new_client, server_add_client}
use completed_projects.Chat.Simpio.{
  Simpio, Stack, zero_simpio, iprintf, erase_line, simpio_get_char,
}
use completed_projects.Chat.Simpio.Editing.{
  IsTerminated, view, press, view-simpio_get_char, simpio_get_char-IsTerminated,
}
use completed_projects.Chat.Client.{left, user_to_server}
use completed_projects.Chat.Client.Conversation.{user_to_server-sent}
use completed_projects.Chat.Simpio.Printing.{iprintf-leaks}
use completed_projects.Chat.Client.{notice, server_to_user, user_mesg, depart_mesg}
use completed_projects.Chat.Client.Conversation.{AreLines}
use completed_projects.Chat.Client.Notices.{
  AllFit, TextFits, input_line, all_framed, server_to_user-shows,
}
use completed_projects.Chat.Client.Request.{make_join, padded, fifo_name, request, make_join-padded}
use completed_projects.Chat.Client.Joining.{
  joined, own_client, client_main, looks, other_end, client_main-meets,
}

-- A stack that holds the letter p throughout.
abbrev pub left_over : Stack
left_over out = replicate 3000 b'p'

abbrev full_line : Bytes
full_line = replicate 1025 b'a'

long_enough : max_line ≤ length full_line
long_enough = omega arith

one_leaks : drop (5 + max_line) (left_over zero_simpio.out) ≡ (b'p' ∷ []) ++ replicate 1970 b'p'
one_leaks = refl

one : length {A = ℕ} (b'p' ∷ []) ≡ length full_line - max_line
one = refl

room :
    5 + length full_line + (length (c_str zero_simpio.prompt) + length (c_str zero_simpio.buf))
    < max_line * 2
unfolding zero_simpio
room = omega arith

iprintf-leaks_example : iprintf left_over zero_simpio full_line ≡ record zero_simpio {
  out =
      zero_simpio.out
      ++ ((erase_line ++ (take (max_line - 1) full_line ++ 0 ∷ (b'p' ∷ [])))
          ++ (c_str zero_simpio.prompt ++ c_str zero_simpio.buf));
}
iprintf-leaks_example =
    iprintf-leaks left_over zero_simpio full_line (b'p' ∷ []) (replicate 1970 b'p') long_enough
      one_leaks one room

abbrev pub arrival : Mesg
arrival = record zero_mesg { kind = bl_joined; name = codes "dan" ++ 0 ∷ [] }

abbrev end : Mesg
end = record zero_mesg { kind = bl_shutdown }

arrival-AllFit : AllFit zero_simpio (arrival ∷ [])
unfolding zero_simpio notice
arrival-AllFit = (refl, (omega arith, omega arith), tt)

end-TextFits : TextFits zero_simpio (notice end end.kind)
unfolding zero_simpio notice
end-TextFits = (omega arith, omega arith)

server_to_user-shows_example :
    server_to_user left_over zero_simpio ((arrival ∷ []) ++ end ∷ (arrival ∷ [])) ≡ (
      record zero_simpio {
        out =
            zero_simpio.out
            ++ (all_framed (input_line zero_simpio) ((arrival ∷ []) ++ end ∷ []) ++ codes "\n");
      },
      true,
    )
server_to_user-shows_example =
    server_to_user-shows left_over end (arrival ∷ []) zero_simpio (arrival ∷ []) arrival-AllFit refl
      end-TextFits

make_join-padded_example :
    make_join 77 (codes "ann")
    ≡ some (record {
      name = padded (codes "ann");
      to_client_fname = padded (fifo_name (codes "to_user_") 77);
      to_server_fname = padded (fifo_name (codes "to_server_") 77);
    })
make_join-padded_example = make_join-padded 77 (codes "ann") (omega arith) (omega arith)

-- A system on which every call succeeds.
abbrev pub calm : Os
calm t c = record { ret = pos 5; mesg = zero_mesg; join = zero_join; ready = λ fd. true }

five : pos 5 ≢ minus_one
five e = cc

empty-room : zero_server.n_clients < max_clients
unfolding zero_server
empty-room = omega arith

client_main-meets_example :
    (opens : Trace) × (a : ℤ) × (b : ℤ) × (server_add_client calm zero_server zero_join []
      ≡ ok (push_client zero_server (new_client zero_join (pos 5) (pos 5)), pos 0) ([] ++ opens))
    × (client_main calm (request (codes "srv") zero_join) []
        ≡ ok (joined (own_client zero_join a b)) (
            []
            ++ (looks calm (codes "srv") zero_join []
                ++ write_join (pos 5) zero_join ∷ map other_end opens)))
client_main-meets_example =
    client_main-meets calm (codes "srv") zero_join [] calm zero_server [] five empty-room five five

fresh-IsTerminated : IsTerminated zero_simpio
unfolding zero_simpio
fresh-IsTerminated = record { size = refl; inside = omega arith; nul = refl }

simpio_get_char-IsTerminated_example :
    IsTerminated (simpio_get_char (simpio_get_char zero_simpio (some b'h')) (some 127))
simpio_get_char-IsTerminated_example =
    simpio_get_char-IsTerminated (simpio_get_char zero_simpio (some b'h')) (some 127)
      (simpio_get_char-IsTerminated zero_simpio (some b'h') fresh-IsTerminated)

view-simpio_get_char_example :
    view (simpio_get_char zero_simpio (some b'h')) ≡ press (view zero_simpio) (some b'h')
view-simpio_get_char_example = view-simpio_get_char zero_simpio (some b'h') fresh-IsTerminated

abbrev two_lines : List Bytes
two_lines = codes "hi" ∷ codes "a b" ∷ []

two_lines-AreLines : AreLines two_lines
two_lines-AreLines = (
  λ e. cc,
  (omega arith, (omega arith, tt)),
  (λ e. cc, (omega arith, (omega arith, (omega arith, tt))), tt),
)

fresh : (length zero_simpio.buf ≡ max_line) × (zero_simpio.end_of_input ≡ false)
unfolding zero_simpio
fresh = (refl, refl)

abbrev no_stack : Bytes → Bytes
no_stack out = []

user_to_server-sent_example :
    (s' : Simpio) × (user_to_server no_stack 4 (codes "ann") zero_simpio (codes "hi\na b\n")
      ≡ left
          (user_mesg (codes "ann") (codes "hi")
            ∷ user_mesg (codes "ann") (codes "a b")
            ∷ depart_mesg (codes "ann")
            ∷ [])
          s')
user_to_server-sent_example =
    user_to_server-sent no_stack (codes "ann") two_lines 4 zero_simpio two_lines-AreLines fresh.0
      fresh.1 (omega arith)
