-- ===== src/Chat/RoundTests.antt =====
-- Rounds of the chat server, with what its clients get, at concrete inputs.
use completed_projects.Common.{inl, inr, some, pos, List, [], ◌∷◌, ◌++◌, ◌≡◌, refl, arith}
use completed_projects.Common.CString.{codes, IsText}
use completed_projects.Chat.Blather.{Mesg, Client, Server, zero_server}
use completed_projects.Chat.Os.{Os, read_mesg, Result, ok}
use completed_projects.Chat.Server.{
  act_on, clear_ready, server_add_client, handle_clients, mark_clients, server_get_client,
  server_check_sources, server_handle_client, push_client, new_client, clients, server_broadcast,
  server_handle_join, main_round,
}
use completed_projects.Chat.Server.Broadcast.{sends}
use completed_projects.Chat.Server.Handle.{clear_at}
use completed_projects.Chat.Server.Lifetime.{rounds}
use completed_projects.Chat.Server.Received.{received, fds, Has, AllDiffer}
use completed_projects.Chat.Server.RoundOrder.{main_round_same_order}
use completed_projects.Chat.Delivery.{server_handle_client-delivers}
use completed_projects.Chat.Client.{notice, user_mesg}
use completed_projects.Chat.Server.Slots.{Holds, with_slots, Mirrors}
use completed_projects.Chat.Server.Slots.Rounds.{rounds-Mirrors}
use completed_projects.Common.{set, length-set}
use completed_projects.Chat.Tests.{
  calm, request, member, three, three-IsValid, state_of, trace_of, pos-ne-minus_one,
}

ann-IsText : IsText (codes "ann")
ann-IsText = omega arith

hi-IsText : IsText (codes "hi")
hi-IsText = omega arith

abbrev said : Os
said = calm (user_mesg (codes "ann") (codes "hi")) request

server_handle_client-delivers_example :
    (s' : Server) × (server_handle_client said three 0 []
      ≡ ok s' (
          []
          ++ (read_mesg (server_get_client three 0).to_server_fd
              ∷ sends (user_mesg (codes "ann") (codes "hi")) (clients three))))
    × (s' ≡ clear_ready three 0)
    × (clients s' ≡ clear_at (clients three) 0)
    × (notice (user_mesg (codes "ann") (codes "hi")) (user_mesg (codes "ann") (codes "hi")).kind
        ≡ some (codes "[" ++ (codes "ann" ++ (codes "] : " ++ (codes "hi" ++ codes "\n")))))
server_handle_client-delivers_example =
    server_handle_client-delivers said three 0 [] (codes "ann") (codes "hi") ann-IsText hi-IsText
      (omega arith) (omega arith) (pos-ne-minus_one 1284) refl (λ u fd. omega arith)

-- In one round a client joins, and all speak.
abbrev spoken : Result Server
spoken = main_round said three []

speak : spoken ≡ ok (state_of spoken) (trace_of spoken)
unfolding main_round server_check_sources server_handle_join server_add_client handle_clients
    server_handle_client act_on server_broadcast user_mesg push_client zero_server clear_ready
    mark_clients new_client
speak = refl

three-AllDiffer : AllDiffer (fds (clients three))
unfolding push_client zero_server
three-AllDiffer = (
  λ h. elim h [ inl e ↦ cc | inr k ↦ (elim k [ inl e ↦ cc | inr l ↦ elim l [ ] ]) ],
  (λ h. elim h [ inl e ↦ cc | inr l ↦ elim l [ ] ], (λ h. elim h [ ], tt)),
)

five_unused : Has (pos 5) (fds (clients three)) → ⊥
unfolding push_client zero_server
five_unused (inl e) = cc
five_unused (inr (inl e)) = cc
five_unused (inr (inr (inl e))) = cc
five_unused (inr (inr (inr k))) = elim k [ ]

there : Has (pos 1) (fds (clients three)) × Has (pos 3) (fds (clients three))
unfolding push_client zero_server
there = (inl refl, inr (inr (inl refl)))

still_there :
    Has (pos 1) (fds (clients (state_of spoken))) × Has (pos 3) (fds (clients (state_of spoken)))
unfolding main_round server_check_sources server_handle_join server_add_client handle_clients
    server_handle_client act_on server_broadcast user_mesg push_client zero_server clear_ready
    mark_clients new_client
still_there = (inl refl, inr (inr (inl refl)))

main_round_same_order_example :
    (ms : List Mesg) × (received (pos 1) (trace_of spoken) ≡ received (pos 1) [] ++ ms)
    × (received (pos 3) (trace_of spoken) ≡ received (pos 3) [] ++ ms)
main_round_same_order_example =
    main_round_same_order said (λ u fd m. omega arith) three (state_of spoken) [] (trace_of spoken)
      (pos 1) (pos 3) three-IsValid three-AllDiffer (λ w f x. five_unused) speak there.0
      still_there.0 there.1 still_there.1

-- The same three clients, with a stranger in a slot behind them.
abbrev haunted : List Client
haunted = set three.client 7 (member 66)

haunted-Holds : Holds three haunted
unfolding push_client zero_server
haunted-Holds = record {
  valid = three-IsValid;
  slots = length-set three.client 7 (member 66);
  same = refl;
}

rounds-Mirrors_example :
    Mirrors (rounds said 2 three []) (rounds said 2 (with_slots three haunted) [])
rounds-Mirrors_example = rounds-Mirrors said 2 three haunted [] haunted-Holds
