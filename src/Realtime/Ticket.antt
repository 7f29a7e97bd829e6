-- ===== src/Realtime/Ticket.antt =====
-- realtime-server/src/ticket.rs.
use kotatsu_backend.Prelude.{
  ℕ, String, String_eq, ltb, Locked, pure, gets, modify, ok_or, return_err_if, ◌>>=◌, ◌>>◌,
}
use kotatsu_backend.HashMap.{lookup, remove}
use kotatsu_backend.Realtime.Types.{CoreState}
use kotatsu_backend.Realtime.Error.{Error}

-- The ticket is removed before its expiry is looked at.
unfoldable pub consume_ticket : String → ℕ → Locked CoreState Error (String × String × String)
consume_ticket token now = do
  t ← ok_or (← gets (λ core. lookup token core.tickets)) Error.invalid_token
  modify (λ core. record core { tickets = remove token core.tickets })
  return_err_if (ltb t.expires_at_unix now) Error.token_expired
  pure (t.match_id, t.player_id, t.display_name)
