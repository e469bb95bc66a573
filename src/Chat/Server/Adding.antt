-- ===== src/Chat/Server/Adding.antt =====
-- server.c: what `server_add_client` may come to.
use completed_projects.Common.{
  ◌<◌, pos, minus_one, eqb_ℤ, Bool-cases, inl, inr, [], ◌∷◌, ◌++◌, ◌≡◌, ◌⊎◌, refl, ◌==◌, arith,
}
use completed_projects.Chat.Blather.{max_clients, Join, Server}
use completed_projects.Chat.Os.{Os, Trace, ok, exits}
use completed_projects.Chat.Server.{push_client, new_client, server_add_client, open_client}
use completed_projects.Chat.Server.Clients.{
  IsValid, to_fd, from_fd, opens_to, opens_from, server_add_client_opens, server_add_client_full,
}
use completed_projects.Chat.Server.Told.{eqb_ℤ-ne}

module _ (os : Os) (s : Server) (join : Join) (t : Trace) where
  -- The array is full, the server exits, or there is one more client.
  pub server_add_client_cases :
      IsValid s
      → ((s.n_clients ≡ max_clients) × (server_add_client os s join t ≡ ok (s, minus_one) t))
        ⊎ (((u : Trace) × (server_add_client os s join t ≡ exits u))
            ⊎ ((s.n_clients < max_clients)
                × (server_add_client os s join t
                    ≡ ok
                        (
                          push_client s (new_client join (to_fd os s join t) (from_fd os s join t)),
                          pos 0,
                        )
                        (t ++ opens_to os s join t ∷ opens_from os s join t ∷ []))))
  unfolding server_add_client open_client
  server_add_client_cases v = elim (Bool-cases (s.n_clients == max_clients)) [
    | inl e ↦
        let full : s.n_clients ≡ max_clients = ground (arith, e) in
        inl (full, server_add_client_full os s join t full)
    | inr e ↦
        let room : s.n_clients < max_clients = ground (arith, e, v.fits) in
        elim (Bool-cases (eqb_ℤ (to_fd os s join t) minus_one)) [
          | inl f ↦ inr (inl (t ++ opens_to os s join t ∷ [], rw (e, f) refl))
          | inr f ↦ elim (Bool-cases (eqb_ℤ (from_fd os s join t) minus_one)) [
            | inl g ↦ inr (
                inl (
                  (t ++ opens_to os s join t ∷ []) ++ opens_from os s join t ∷ [],
                  rw (e, f, g) refl,
                ))
            | inr g ↦ inr (
                inr (
                  room,
                  server_add_client_opens os s join t room (eqb_ℤ-ne _ _ f) (eqb_ℤ-ne _ _ g),
                ))
          ]
        ]
  ]
