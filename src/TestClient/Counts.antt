-- ===== src/TestClient/Counts.antt =====
-- What the statistics of a client count.
use kotatsu_backend.Prelude.{
  ℕ, ◌+◌, ◌≡◌, ◌≢◌, refl, ◌∙◌, String, String_eq, Bool, true, false, ◌||◌, List, [], ◌∷◌, Option,
  arith, inl, inr, Option-cases, Bool-cases, filter, length,
}
use kotatsu_backend.HashMap.{lookup, lookup-insert_self, lookup-insert_ne}
use kotatsu_backend.Realtime.Layout.{unwrap_or}
use kotatsu_backend.TestClient.Messages.{ServerReliable, ServerDatagram}
use kotatsu_backend.TestClient.Stats.{
  ClientStats, StatsMap, default_stats, on_entry, record_datagram, record_applied,
  record_cooldown_error, message_change, handle_message, is_cooldown_refusal,
}
use kotatsu_backend.TestClient.Run.{Event, run, drain}
use kotatsu_backend.TestClient.Interleaving.{
  Reading, observe, observe_all, readings, run_interleaved,
}

-- The entry of a player, as `or_default` reads it.
abbrev pub entry_of : String → StatsMap → ClientStats
entry_of id stats = unwrap_or (lookup id stats) default_stats

pub entry_of-on_entry :
    (id : String) (f : ClientStats → ClientStats) (m : StatsMap)
    → entry_of id (on_entry id f m) ≡ f (entry_of id m)
unfolding on_entry
entry_of-on_entry id f m = rw (lookup-insert_self id (f (entry_of id m)) m) refl

pub lookup-on_entry_ne :
    (id other : String) (f : ClientStats → ClientStats) (m : StatsMap)
    → id ≢ other
    → lookup other (on_entry id f m) ≡ lookup other m
unfolding on_entry
lookup-on_entry_ne id other f m n = lookup-insert_ne id other (f (entry_of id m)) m n

-- A change of anyone's parameters.
abbrev pub is_applied : Reading → Bool
is_applied (Reading.a_message (ServerReliable.param_applied by seq params next now_ms)) = true
is_applied _ = false

abbrev pub is_datagram : Reading → Bool
is_datagram (Reading.a_datagram from) = true
is_datagram _ = false

-- The refusal of a change while the cooldown runs, where the client has asked for one.
abbrev pub is_refusal : Bool → Reading → Bool
is_refusal trigger (Reading.a_message (ServerReliable.error code message)) =
    is_cooldown_refusal trigger code message
is_refusal trigger _ = false

abbrev pub any : (Reading → Bool) → List Reading → Bool
any test [] = false
any test (r ∷ rest) = test r || any test rest

abbrev one_if : Bool → ℕ
one_if true = 1
one_if false = 0

module _ (trigger : Bool) (id : String) where
  -- What one reading adds to the entry.
  Adds : Reading → ClientStats → ClientStats → Type 0
  Adds r st st' =
      (st'.param_applied_count ≡ st.param_applied_count + one_if (is_applied r))
      × (st'.datagram_count ≡ st.datagram_count + one_if (is_datagram r))
      × (st'.cooldown_error_seen ≡ (st.cooldown_error_seen || is_refusal trigger r))

  change-Adds :
      (r : Reading) (f : ClientStats → ClientStats) (m : StatsMap)
      → Adds r (entry_of id m) (f (entry_of id m))
      → Adds r (entry_of id m) (entry_of id (on_entry id f m))
  change-Adds r f m h = rw (entry_of-on_entry id f m) h

  observe-Adds :
      (r : Reading) (m : StatsMap) → Adds r (entry_of id m) (entry_of id (observe trigger id r m))
  unfolding Adds handle_message message_change record_applied record_datagram record_cooldown_error
  observe-Adds (Reading.a_message (ServerReliable.param_applied by seq params next now_ms)) m =
      change-Adds (Reading.a_message (ServerReliable.param_applied by seq params next now_ms))
        (record_applied id by params next) m (ground arith)
  observe-Adds (Reading.a_message (ServerReliable.error code message)) m =
      elim (Bool-cases (is_cooldown_refusal trigger code message)) [
        | inl e ↦
            rw (e, observe, handle_message, message_change, Adds)
              (rw (entry_of-on_entry id record_cooldown_error m) (ground arith))
        | inr e ↦ rw (e, observe, handle_message, message_change, Adds) (ground arith)
      ]
  observe-Adds (Reading.a_message (ServerReliable.join_ok match_id got params now_ms)) m =
      ground arith
  observe-Adds (Reading.a_message (ServerReliable.match_started match_id started_at now_ms)) m =
      ground arith
  observe-Adds (Reading.a_datagram from) m =
      change-Adds (Reading.a_datagram from) (record_datagram from) m (ground arith)
  observe-Adds Reading.nothing m = ground arith

  -- What a list of readings adds.
  AddsAll : List Reading → ClientStats → ClientStats → Type 0
  AddsAll rs st st' =
      (st'.param_applied_count ≡ st.param_applied_count + length (filter is_applied rs))
      × (st'.datagram_count ≡ st.datagram_count + length (filter is_datagram rs))
      × (st'.cooldown_error_seen ≡ (st.cooldown_error_seen || any (is_refusal trigger) rs))

  AddsAll-cons :
      (r : Reading) (rs : List Reading) (a b c : ClientStats)
      → Adds r a b
      → AddsAll rs b c
      → AddsAll (r ∷ rs) a c
  unfolding Adds AddsAll
  AddsAll-cons r rs a b c h t = ground arith

  observe_all-AddsAll :
      (rs : List Reading) (m : StatsMap)
      → AddsAll rs (entry_of id m) (entry_of id (observe_all trigger id rs m))
  unfolding AddsAll
  observe_all-AddsAll [] m = ground arith
  observe_all-AddsAll (r ∷ rs) m =
      let next = observe trigger id r m in
      AddsAll-cons r rs (entry_of id m) (entry_of id next)
        (entry_of id (observe_all trigger id rs next)) (observe-Adds r m)
        (observe_all-AddsAll rs next)

  observe-other :
      (other : String) (r : Reading) (m : StatsMap)
      → id ≢ other
      → lookup other (observe trigger id r m) ≡ lookup other m
  unfolding handle_message
  observe-other other (Reading.a_message msg) m n =
      elim (Option-cases (message_change trigger id msg)) [
        | inl e ↦ rw e refl
        | inr (f, e) ↦ rw e (lookup-on_entry_ne id other f m n)
      ]
  observe-other other (Reading.a_datagram from) m n =
      lookup-on_entry_ne id other (record_datagram from) m n
  observe-other other Reading.nothing m n = refl

  observe_all-other :
      (other : String) (rs : List Reading) (m : StatsMap)
      → id ≢ other
      → lookup other (observe_all trigger id rs m) ≡ lookup other m
  observe_all-other other [] m n = refl
  observe_all-other other (r ∷ rs) m n =
      observe_all-other other rs (observe trigger id r m) n ∙ observe-other other r m n

module _ {F32 : Type 0} (read_reliable : List ℕ → Option ServerReliable)
    (read_datagram : List ℕ → Option (ServerDatagram F32)) (trigger : Bool) (id : String) where
  -- However the two tasks of a client are interleaved, once its channel has been emptied its entry
  -- counts each packet that reads as a change of parameters and each that reads as a datagram, and
  -- shows a cooldown error just where one was there before or a packet reads as the refusal that
  -- the client looks for; the entry of any other player is as it was.
  pub run_counts :
      (events : List Event) (stats : StatsMap) (other : String)
      → id ≢ other
      → let client =
          run read_reliable read_datagram trigger id events
            (record { stats = stats; queue = [] }) in
        let st = entry_of id stats in
        let settled = (drain trigger id client).stats in
        let st' = entry_of id settled in
        let rs = readings read_reliable read_datagram events in
        (st'.param_applied_count ≡ st.param_applied_count + length (filter is_applied rs))
        × (st'.datagram_count ≡ st.datagram_count + length (filter is_datagram rs))
        × (st'.cooldown_error_seen ≡ (st.cooldown_error_seen || any (is_refusal trigger) rs))
        × (lookup other settled ≡ lookup other stats)
  unfolding AddsAll
  run_counts events stats other n =
      let rs = readings read_reliable read_datagram events in
      let (applied, datagrams, refused) = observe_all-AddsAll trigger id rs stats in
      rw (run_interleaved read_reliable read_datagram trigger id events stats)
        (applied, datagrams, refused, observe_all-other trigger id other rs stats n)
