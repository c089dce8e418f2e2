-- ===== src/Server/Start.antt =====
-- The constructor of src/core/rpc_server.cc and its `start`, up to the accept loop, with
-- src/include/smf/rpc_server_args.h and src/include/smf/rpc_connection_limits.h.
use Prim.Native.Nat.{bit_and}
use Prim.Native.String.{String}
use text.Mathlib.Text.{◌==◌ as str_eq}
use smf.Prelude.{
  ℕ, ◌+◌, ◌^◌, ◌<◌, ◌≡◌, Bool, true, false, not, List, [], Option, none, some, arith, length, ◌==◌,
  if◌then◌else◌,
}
use smf.Rpc.Connection.{Connection}
use smf.Rpc.RecvContext.{Platform}
use smf.Server.Stats.{no_stats}
use smf.Server.Semaphore.{Semaphore}
use smf.Server.Dispatch.{Config}
use smf.Server.Machine.{Server, Event, absent, run}
use smf.Server.Machine.Memory.{units, dropped_along, units-run}
use smf.Server.Machine.Consistent.{IsConsistent, LeavesEnabled, run-IsConsistent}
use smf.Server.Shutdown.{Stopping, serving}

-- The fields that the server reads; times are in milliseconds.
pub record Args : Type 0 where
  pub ip : String
  pub rpc_port : ℕ
  pub http_port : ℕ
  pub flags : ℕ
  pub has_credentials : Bool
  pub recv_timeout : ℕ
  pub memory_avail_per_core : ℕ

abbrev pub default_args : Args
default_args = record {
  ip = "";
  rpc_port = 11225;
  http_port = 33140;
  flags = 0;
  has_credentials = false;
  recv_timeout = 60000;
  memory_avail_per_core = 2 ^ 31;
}

abbrev pub disable_http_server : ℕ
disable_http_server = 1

pub record Limits (Q : Type 0) : Type 0 where
  pub max_memory : ℕ
  pub max_body_parsing_duration : ℕ
  pub resources_available : Q

-- An address without an ip stands for every interface.
abbrev pub Address : Type 0
Address = Option String × ℕ

unfoldable pub address : String → ℕ → Address
address ip port = if str_eq ip "" then (none, port) else (some ip, port)

-- What `start` opens.
pub record Listeners : Type 0 where
  pub admin : Option Address
  pub rpc : Address
  pub tls : Bool

unfoldable pub listeners : Args → Listeners
unfolding address
listeners args = record {
  admin =
      if not (bit_and args.flags disable_http_server == 0)
      then none
      else some (address args.ip args.http_port);
  rpc = address args.ip args.rpc_port;
  tls = args.has_credentials;
}

abbrev is_some {ℓ} : {A : Type ℓ} → Option A → Bool
is_some none = false
is_some (some a) = true

module _ {Q : Type 0} (sem : Semaphore Q) where
  unfoldable pub limits : Args → Limits Q
  limits args = record {
    max_memory = args.memory_avail_per_core;
    max_body_parsing_duration = args.recv_timeout;
    resources_available = sem.initial args.memory_avail_per_core;
  }

module _ {S O Q : Type 0} (sem : Semaphore Q) where
  -- No connection has been accepted; `none_yet` stands for the connections that are not there.
  unfoldable pub rpc_server : (none_yet : Connection S O) → Args → Server S O Q
  unfolding limits
  rpc_server none_yet args = record {
    connections = λ id. none_yet;
    fibers = λ id. absent;
    open_connections = [];
    connection_idx = 0;
    stats = no_stats;
    resources_available = (limits sem args).resources_available;
    parses = [];
    jobs = [];
  }

  unfoldable pub start : Args → Server S O Q → Stopping S O Q
  unfolding listeners
  start args s = record {
    server = s;
    accepting = true;
    admin = is_some (listeners args).admin;
    phase = serving;
  }

module _ {S O Q : Type 0} (p : Platform) (g : Config S O) (sem : Semaphore Q)
    (none_yet : Connection S O) (args : Args) where
  -- Of a new server with less than 2 ^ 31 bytes of memory, after fewer than 2 ^ 64 events of any
  -- kind, in which nothing but the cleanups enables or disables a connection, the memory that is
  -- free, held or lost by bodies that failed is together the memory that it was given, and the open
  -- connections are the accepted ones that are enabled, each once.
  pub rpc_server-run :
      (es : List (Event S O)) (s : Server S O Q)
      → args.memory_avail_per_core < 2 ^ 31
      → length es < 2 ^ 64
      → LeavesEnabled es
      → run p g sem es (rpc_server sem none_yet args) ≡ some s
      → (units p g sem s + dropped_along p g sem es (rpc_server sem none_yet args)
          ≡ args.memory_avail_per_core)
        × IsConsistent p g sem s
  unfolding rpc_server limits
  rpc_server-run es s small few leaves ran =
      let given = sem.count-initial args.memory_avail_per_core (omega arith) in
      (
        omega (
          arith,
          given,
          units-run p g sem es (rpc_server sem none_yet args) s (omega (arith, given)) ran,
        ),
        run-IsConsistent p g sem es (rpc_server sem none_yet args) s (omega arith) leaves
            (tt, λ j lo hi. ground arith) ran,
      )
