-- ===== src/TestClient/Stats.antt =====
-- The statistics of test-client/src/main.rs, and what a message and a datagram change in them.
use text.Mathlib.Text.{starts_with}
use kotatsu_backend.Prelude.{
  ℕ, ◌+◌, String, String_eq, Bool, true, false, ◌&&◌, [], Option, none, some, if◌then◌else◌, ◌==◌,
}
use kotatsu_backend.HashMap.{HashMap, lookup, insert}
use kotatsu_backend.Realtime.Types.{PlayerParams}
use kotatsu_backend.Realtime.Layout.{unwrap_or}
use kotatsu_backend.TestClient.Messages.{ServerReliable}

abbrev pub HashSet : Type 0 → Type 0
HashSet A = HashMap A (Unit {0})

pub record ClientStats : Type 0 where
  pub param_applied_count : ℕ
  pub datagram_count : ℕ
  pub datagram_from_players : HashSet String
  pub join_params : Option PlayerParams
  pub observed_param_state : Option PlayerParams
  pub cooldown_error_seen : Bool
  pub next_param_change_at_unix : Option ℕ

-- `ClientStats::default`
abbrev pub default_stats : ClientStats
default_stats = record {
  param_applied_count = 0;
  datagram_count = 0;
  datagram_from_players = [];
  join_params = none;
  observed_param_state = none;
  cooldown_error_seen = false;
  next_param_change_at_unix = none;
}

abbrev pub StatsMap : Type 0
StatsMap = HashMap String ClientStats

-- `all.entry(player_id).or_default()`, changed in place.
unfoldable pub on_entry : String → (ClientStats → ClientStats) → StatsMap → StatsMap
on_entry player_id change stats =
    insert player_id (change (unwrap_or (lookup player_id stats) default_stats)) stats

abbrev pub on_entry_if : Option (ClientStats → ClientStats) → String → StatsMap → StatsMap
on_entry_if none player_id stats = stats
on_entry_if (some change) player_id stats = on_entry player_id change stats

-- The player has joined with these parameters.
unfoldable pub record_join : PlayerParams → ClientStats → ClientStats
record_join params st = record st { join_params = some params }

-- A datagram of a player has come in.
unfoldable pub record_datagram : String → ClientStats → ClientStats
record_datagram from_player st = record st {
  datagram_count = st.datagram_count + 1;
  datagram_from_players = insert from_player tt st.datagram_from_players;
}

unfoldable pub record_applied : String → String → PlayerParams → ℕ → ClientStats → ClientStats
record_applied player_id from_player_id params next_param_change_at_unix st =
    let counted = record st { param_applied_count = st.param_applied_count + 1 } in
    if from_player_id == player_id
    then record counted {
      observed_param_state = some params;
      next_param_change_at_unix = some next_param_change_at_unix;
    }
    else counted

unfoldable pub is_cooldown_refusal : Bool → String → String → Bool
is_cooldown_refusal trigger_param_update code message =
    trigger_param_update && code == "param_update_failed" && starts_with message "cooldown_active:"

unfoldable pub record_cooldown_error : ClientStats → ClientStats
record_cooldown_error st = record st { cooldown_error_seen = true }

-- The arms of the `match` on a message: what is done with the entry, if it is taken.
module _ (trigger_param_update : Bool) (player_id : String) where
  unfoldable pub message_change : ServerReliable → Option (ClientStats → ClientStats)
  message_change (ServerReliable.param_applied from_player_id seq params next now_ms) =
      some (record_applied player_id from_player_id params next)
  message_change (ServerReliable.error code message) =
      if is_cooldown_refusal trigger_param_update code message
      then some record_cooldown_error
      else none
  message_change (ServerReliable.join_ok match_id id params now_ms) = none
  message_change (ServerReliable.match_started match_id started_at now_ms) = none

  unfoldable pub handle_message : ServerReliable → StatsMap → StatsMap
  handle_message msg = on_entry_if (message_change msg) player_id
