-- ===== src/Realtime/Core/Finish.antt =====
-- The ranking of a match: `finish_player` of room.rs.
use kotatsu_backend.Prelude.{
  ℕ, zero, suc, ◌<◌, ◌≡◌, ◌≢◌, String, String_eq, List, [], ◌∷◌, some, arith, ok, err, length, All,
  if◌then◌else◌, ◌%◌,
}
use kotatsu_backend.HashMap.{lookup, contains_key}
use kotatsu_backend.Realtime.Magicnums.{u32_mod}
use kotatsu_backend.Realtime.Types.{CoreState, MatchRoom}
use kotatsu_backend.Realtime.Error.{Error}
use kotatsu_backend.Realtime.Room.{position, finish_player}
use kotatsu_backend.Realtime.Core.{Call, step, run}
use kotatsu_backend.Realtime.Core.Valid.{IsValid}
use kotatsu_backend.Realtime.Core.Reach.{run-IsValid}
use kotatsu_backend.Realtime.Core.Rooms.{finish_player-IsValid}
use kotatsu_backend.Realtime.Core.Places.{
  place, Replaces, step-place, run-place, finish_player-place, finish_player_placed,
  position-lt-length,
}

-- A rank is final: once a player has finished with a rank, then after any further calls, as long as
-- the match is neither deleted nor created anew, the match is there, and another finish of that
-- player is answered with the same rank and the counts of the match as it is then if the player is
-- in it, and with `player_not_found` if not.
pub finish_player_rank_stable :
    (match_id id : String) (now later rank finished total : ℕ) (core : CoreState)
    (calls : List Call)
    → IsValid core
    → All (λ call. ¬ Replaces match_id call) calls
    → (finish_player match_id id now core).0 ≡ ok (rank, finished, total)
    → let core' = run (finish_player match_id id now core).1 calls in
      (room : MatchRoom) × (lookup match_id core'.matches ≡ some room)
      × ((finish_player match_id id later core').0 ≡ (
          if contains_key id room.players
          then ok (rank, length room.finished_player_ids % u32_mod, length room.players % u32_mod)
          else err Error.player_not_found))
finish_player_rank_stable m id now later rank finished total core calls v h e =
    let core' = (finish_player m id now core).1 in
    let (i, p, q) = finish_player-place m id now core rank finished total e in
    let stays = run-place m id i core' calls (finish_player-IsValid m id now core v) h p in
    let (room, there, again) = finish_player_placed m id later (run core' calls) i stays in
    (room, there, rw q again)

position_inj :
    (a b : String) (i : ℕ) (xs : List String)
    → position a xs ≡ some i
    → position b xs ≡ some i
    → a ≡ b
unfolding position
position_inj a b i [] h k = absurd (ground arith)
position_inj a b zero (x ∷ xs) h k = ground (arith, String_eq.beq_iff x a, String_eq.beq_iff x b)
position_inj a b (suc i) (x ∷ xs) h k = ground (arith, position_inj a b i xs)

-- A place is one in the finished list.
place-position :
    (match_id id : String) (i : ℕ) (core : CoreState) (room : MatchRoom)
    → lookup match_id core.matches ≡ some room
    → place match_id id core ≡ some i
    → position id room.finished_player_ids ≡ some i
unfolding place
place-position m id i core room e h = ground arith

-- No two players share a rank: after one player has finished, and after any further calls that
-- neither delete the match nor create it anew, another player who finishes gets another rank, as long
-- as the list of those who have finished is shorter than a 32-bit number can count.
pub finish_player_ranks_ne :
    (match_id a b : String) (now later rank finished total rank' finished' total' : ℕ)
    (core : CoreState) (calls : List Call) (room : MatchRoom)
    → IsValid core
    → All (λ call. ¬ Replaces match_id call) calls
    → a ≢ b
    → (finish_player match_id a now core).0 ≡ ok (rank, finished, total)
    → let core' = run (finish_player match_id a now core).1 calls in
      (finish_player match_id b later core').0 ≡ ok (rank', finished', total')
      → lookup match_id (finish_player match_id b later core').1.matches ≡ some room
      → length room.finished_player_ids < u32_mod
      → rank ≢ rank'
finish_player_ranks_ne m a b now later rank f t rank' f' t' core calls room v h n ea eb l lt same =
    let core' = run (finish_player m a now core).1 calls in
    let (i, pa, ra) = finish_player-place m a now core rank f t ea in
    let (j, pb, rb) = finish_player-place m b later core' rank' f' t' eb in
    let v1 = finish_player-IsValid m a now core v in
    let pa' =
      step-place m a i core' (Call.finish_player m b later) (run-IsValid _ calls v1) (λ x. x)
        (run-place m a i _ calls v1 h pa) in
    let core'' = (finish_player m b later core').1 in
    let qa = place-position m a i core'' room l (unfold step in pa') in
    let qb = place-position m b j core'' room l pb in
    let la = position-lt-length a i room.finished_player_ids qa in
    let lb = position-lt-length b j room.finished_player_ids qb in
    let eq : i ≡ j = omega arith in n (position_inj a b j room.finished_player_ids (rw eq at qa) qb)
