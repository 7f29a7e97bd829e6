-- ===== src/TestClient/Changes.antt =====
-- What the server does with a change of the gravity of a player who has the default levels, and with
-- a change that comes too early.
use kotatsu_backend.Prelude.{
  ℕ, ℕ_eq, ◌+◌, ◌≡◌, ◌≤◌, ◌<◌, ◌^◌, refl, ap, String, String_eq, List, [], ◌∷◌, map, filter, some,
  ok, err, arith, nat_eq, inl, inr, Bool-cases, ◌==◌,
}
use kotatsu_backend.HashMap.{HashMap, lookup, insert, lookup-insert_self}
use kotatsu_backend.Realtime.Types
use kotatsu_backend.Realtime.Types.{
  PlayerHandle, MatchRoom, PlayerParams, ParamKind, ParamDirection, ParamMutation, CoreState,
  SocketAddr, ChannelId, default_params, cooldown_active, param_applied, error,
}
use kotatsu_backend.Realtime.Error.{Error}
use kotatsu_backend.Realtime.State.{Server, ClientSession}
use kotatsu_backend.Realtime.Params.{apply_param_change}
use kotatsu_backend.Realtime.Room.{update_player_params}
use kotatsu_backend.Realtime.Broadcast.{senders}
use kotatsu_backend.Realtime.Broadcast.Delivery.{copies}

-- The levels after one increase of the gravity.
abbrev pub raised : PlayerParams
raised = record { gravity = 3; friction = 2; speed = 2 }

-- The room after the change of a player.
abbrev pub changed : String → PlayerHandle → ℕ → ℕ → MatchRoom → MatchRoom
changed player_id p next later room = record room {
  players =
      insert player_id (record p { params = raised; next_param_change_at_unix = next })
        room.players;
  last_activity_unix = later;
}

-- The core after that change.
abbrev pub changed_core : ClientSession → PlayerHandle → ℕ → ℕ → MatchRoom → CoreState → CoreState
changed_core session p next later room core = record core {
  matches = insert session.match_id (changed session.player_id p next later room) core.matches;
}

module _ (session : ClientSession) (room : MatchRoom) (p : PlayerHandle) (now later : ℕ)
    (core : CoreState) where
  pub update_accepted :
      lookup session.match_id core.matches ≡ some room
      → lookup session.player_id room.players ≡ some p
      → p.params ≡ default_params
      → p.next_param_change_at_unix ≤ now
      → now + 7 < 2 ^ 64
      → update_player_params session.match_id session.player_id ParamKind.gravity
          ParamDirection.increase now later core
        ≡ (
          ok (record { params = raised; next_param_change_at_unix = now + 7 }),
          changed_core session p (now + 7) later room core,
        )
  unfolding update_player_params apply_param_change
  update_accepted r l d cool fits =
      let mutation : apply_param_change p.params p.next_param_change_at_unix ParamKind.gravity
            ParamDirection.increase now
          ≡ ok (record { params = raised; next_param_change_at_unix = now + 7 }) =
        ground arith in
      ground arith

  pub update_refused :
      lookup session.match_id core.matches ≡ some room
      → lookup session.player_id room.players ≡ some p
      → now < p.next_param_change_at_unix
      → update_player_params session.match_id session.player_id ParamKind.gravity
          ParamDirection.increase now later core
        ≡ (err (Error.param_update (cooldown_active p.next_param_change_at_unix)), core)
  unfolding update_player_params apply_param_change
  update_refused r l hot =
      let mutation : apply_param_change p.params p.next_param_change_at_unix ParamKind.gravity
            ParamDirection.increase now
          ≡ err (cooldown_active p.next_param_change_at_unix) =
        ground arith in
      ground arith

map-insert :
    (k : String) (v w : PlayerHandle) (m : HashMap String PlayerHandle)
    → lookup k m ≡ some w
    → v.reliable_tx ≡ w.reliable_tx
    → map (λ e. e.1.reliable_tx) (insert k v m) ≡ map (λ e. e.1.reliable_tx) m
unfolding lookup insert
map-insert k v w [] h e = absurd (ground arith)
map-insert k v w ((i, u) ∷ m) h e = elim (Bool-cases (i == k)) [
  | inl hit ↦ rw (hit, insert, map) (ground arith)
  | inr miss ↦
      rw (miss, insert, map)
        (ap (λ t. u.reliable_tx ∷ t) (map-insert k v w m (rw (miss, lookup) at h) e))
]

pub copies_lem :
    (ch : ChannelId) (msg : Types.ServerReliable) (txs : List ChannelId)
    → copies ch msg txs ≡ map (λ _. msg) (filter (λ tx. nat_eq tx ch) txs)
copies_lem ch msg [] = refl
copies_lem ch msg (tx ∷ txs) = elim (Bool-cases (nat_eq tx ch)) [
  | inl e ↦ rw (e, copies, filter, map) (ap (λ t. msg ∷ t) (copies_lem ch msg txs))
  | inr e ↦ rw (e, copies, filter, map) (copies_lem ch msg txs)
]

-- The senders of the room are as before.
pub senders-changed :
    (session : ClientSession) (room : MatchRoom) (p : PlayerHandle) (next later : ℕ) (s : Server)
    → lookup session.match_id s.core.matches ≡ some room
    → lookup session.player_id room.players ≡ some p
    → senders session.match_id (record s { core = changed_core session p next later room s.core })
      ≡ senders session.match_id s
unfolding senders
senders-changed session room p next later s r l =
    let p' = record p { params = raised; next_param_change_at_unix = next } in
    let room' = changed session.player_id p next later room in
    rw (lookup-insert_self session.match_id room' s.core.matches, r, senders)
      (map-insert session.player_id p' p room.players l refl)
