-- ===== src/Server/Stats.antt =====
-- src/include/smf/rpc_server_stats.h: eight counters of 64 bits.
use smf.Prelude.{ℕ, ◌+◌, ◌-◌, ◌%◌, ◌^◌}

pub record Stats : Type 0 where
  pub active_connections : ℕ
  pub total_connections : ℕ
  pub in_bytes : ℕ
  pub out_bytes : ℕ
  pub bad_requests : ℕ
  pub no_route_requests : ℕ
  pub completed_requests : ℕ
  pub too_large_requests : ℕ

-- `x += n`, `x++` and `x--` on a uint64_t.
abbrev pub add_u64 : ℕ → ℕ → ℕ
add_u64 x n = (x + n) % 2 ^ 64

abbrev pub inc_u64 : ℕ → ℕ
inc_u64 x = (x + 1) % 2 ^ 64

abbrev pub dec_u64 : ℕ → ℕ
dec_u64 x = (x + 2 ^ 64 - 1) % 2 ^ 64

abbrev pub no_stats : Stats
no_stats = record {
  active_connections = 0;
  total_connections = 0;
  in_bytes = 0;
  out_bytes = 0;
  bad_requests = 0;
  no_route_requests = 0;
  completed_requests = 0;
  too_large_requests = 0;
}

-- What the constructor of src/include/smf/rpc_server_connection.h counts, and its destructor.
abbrev pub rpc_server_connection : Stats → Stats
rpc_server_connection stats = record stats {
  active_connections = inc_u64 stats.active_connections;
  total_connections = inc_u64 stats.total_connections;
}

abbrev pub destroy_connection : Stats → Stats
destroy_connection stats = record stats { active_connections = dec_u64 stats.active_connections }
