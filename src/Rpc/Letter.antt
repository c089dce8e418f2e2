-- ===== src/Rpc/Letter.antt =====
-- src/core/rpc_letter.cc, src/include/smf/rpc_letter.h. A moved-from letter is not used again,
-- so a move is the value; `share` of a buffer is the same bytes.
use Prim.Native.String.{String}
use smf.Prelude.{ℕ, ◌+◌, Bool, List, length, ◌==◌}
use smf.Rpc.Header.{Header}

pub record Letter : Type 0 where
  pub header : Header
  pub dynamic_headers : List (String × String)
  pub body : List ℕ

unfoldable pub share : Letter → Letter
share l = record { header = l.header; dynamic_headers = l.dynamic_headers; body = l.body }

-- Size including the header.
unfoldable pub size : Letter → ℕ
size l = 16 + length l.body

unfoldable pub empty : Letter → Bool
empty l = length l.body == 0
