-- ===== src/Realtime/Magicnums.antt =====
-- The constants of realtime-server/src/magicnums.rs, and the sizes of Rust's integers.
use kotatsu_backend.Prelude.{ℕ, ◌*◌, ◌^◌}

abbrev pub room_max_players : ℕ
room_max_players = 4

abbrev pub match_stage_pool_size : ℕ
match_stage_pool_size = 5

abbrev pub match_stage_order_len : ℕ
match_stage_order_len = 4

abbrev pub token_ttl_secs : ℕ
token_ttl_secs = 60 * 60

abbrev pub room_idle_timeout_secs : ℕ
room_idle_timeout_secs = 3 * 60

abbrev pub param_min_level : ℕ
param_min_level = 1

abbrev pub param_max_level_three_stage : ℕ
param_max_level_three_stage = 3

abbrev pub param_max_level_friction : ℕ
param_max_level_friction = 2

abbrev pub param_change_cooldown_secs : ℕ
param_change_cooldown_secs = 7

abbrev pub u32_mod : ℕ
u32_mod = 2 ^ 32

abbrev pub u64_mod : ℕ
u64_mod = 2 ^ 64
