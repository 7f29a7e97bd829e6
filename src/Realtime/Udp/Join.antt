-- ===== src/Realtime/Udp/Join.antt =====
-- `handle_join` and `remove_client` of udp_connection.rs, section by section. Between two sections
-- the task holds no lock, so other tasks may run there; `join_step` makes one section, and
-- `handle_join` is the task that runs alone.
pub mod Ends
pub mod Sections
pub mod Runs
pub mod Effects
pub mod Stale
pub mod Issued
pub mod Race
use kotatsu_backend.Prelude.{
  ℕ, ℕ_eq, zero, suc, String, Bool, true, false, List, [], ◌∷◌, Option, none, some, Result, ok, err,
}
use kotatsu_backend.HashMap.{lookup, contains_key, insert, remove}
use kotatsu_backend.Realtime.Types.{PlayerParams, SocketAddr, ChannelId, join_ok}
use kotatsu_backend.Realtime.Error.{to_string}
use kotatsu_backend.Realtime.Ticket.{consume_ticket}
use kotatsu_backend.Realtime.Player.{register_player_udp, remove_player}
use kotatsu_backend.Realtime.State.{Server, ClientSession, Channels, on_core}
use kotatsu_backend.Realtime.Udp.Socket.{Codec, send_reliable, send_error}

-- What the task meets on its way: the clock at each reading, the channel that it creates, and
-- whether the socket accepts the packet that it sends.
pub record JoinEnv : Type 0 where
  pub consumed_at : ℕ
  pub channel : ChannelId
  pub registered_at : ℕ
  pub now_ms : ℕ
  pub accepted : Bool
  pub removed_at : ℕ

-- Where the task stands, with the variables that it has set.
pub data JoinTask : Type 0 where
  checking consuming : JoinTask
  registering : String → String → String → JoinTask
  recording : String → String → PlayerParams → JoinTask
  replying : String → String → PlayerParams → JoinTask
  unregistering : JoinTask
  removing : String → String → JoinTask
  done : JoinTask

-- A receiver is dropped with its session.
unfoldable pub drop_session : Option ClientSession → Channels → Channels
drop_session none channels = channels
drop_session (some session) channels = remove session.rx channels

-- `clients.insert(addr, session)`, which drops the session that it replaces.
unfoldable pub put_session : SocketAddr → ClientSession → Server → Server
unfolding drop_session
put_session addr session s = record s {
  clients = insert addr session s.clients;
  channels = drop_session (lookup addr s.clients) s.channels;
}

unfoldable pub take_session : SocketAddr → Server → Option ClientSession × Server
unfolding drop_session
take_session addr s = (
  lookup addr s.clients,
  record s {
    clients = remove addr s.clients;
    channels = drop_session (lookup addr s.clients) s.channels;
  },
)

abbrev pub after_take : Option ClientSession → JoinTask
after_take none = done
after_take (some session) = removing session.match_id session.player_id

module _ {F32 : Type 0} (codec : Codec F32) (env : JoinEnv) (addr : SocketAddr)
    (token : String) where
  unfoldable pub join_step : JoinTask → Server → JoinTask × Server
  unfolding put_session take_session
  join_step JoinTask.checking s = elim (contains_key addr s.clients) [
    | true ↦ (done, s)
    | false ↦ (consuming, s)
  ]
  join_step JoinTask.consuming s =
      let (r, s') = on_core (consume_ticket token env.consumed_at) s in
      elim r [
        | ok (match_id, player_id, display_name) ↦ (registering match_id player_id display_name, s')
        | err e ↦ (done, send_error codec env.accepted addr "auth_failed" (to_string e) s')
      ]
  join_step (JoinTask.registering match_id player_id display_name) s =
      let (r, s') =
        on_core
          (register_player_udp match_id player_id display_name addr env.channel env.registered_at)
          s in
      elim r [
        | ok params ↦ (
          recording match_id player_id params,
          record s' { channels = insert env.channel [] s'.channels },
        )
        | err e ↦ (done, send_error codec env.accepted addr "join_failed" (to_string e) s')
      ]
  join_step (JoinTask.recording match_id player_id params) s = (
    replying match_id player_id params,
    put_session addr
        (record {
          match_id = match_id;
          player_id = player_id;
          addr = addr;
          tx = env.channel;
          rx = env.channel;
        })
        s,
  )
  join_step (JoinTask.replying match_id player_id params) s =
      let (sent, s') =
        send_reliable codec env.accepted addr (join_ok match_id player_id params env.now_ms) s in
      elim sent [ true ↦ (done, s') | false ↦ (unregistering, s') ]
  join_step JoinTask.unregistering s =
      let (session, s') = take_session addr s in (after_take session, s')
  join_step (JoinTask.removing match_id player_id) s =
      (done, record s { core = remove_player match_id player_id env.removed_at s.core })
  join_step JoinTask.done s = (done, s)

  -- The task runs alone for a number of sections.
  unfoldable pub join_run : ℕ → JoinTask → Server → JoinTask × Server
  unfolding join_step
  join_run zero task s = (task, s)
  join_run (suc n) task s = let (task', s') = join_step task s in join_run n task' s'

  -- It has at most seven sections.
  unfoldable pub handle_join : Server → Server
  unfolding join_run
  handle_join s = (join_run 7 checking s).1
