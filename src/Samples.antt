-- ===== src/Samples.antt =====
-- Concrete streams, a platform, a letter and codecs, for the tests.
use smf.Prelude.{
  ℕ, ◌+◌, ◌-◌, refl, true, false, List, [], ◌∷◌, ◌++◌, Option, none, some, arith, ltb, length, take,
  drop, if◌then◌else◌,
}
use smf.Rpc.Stream.{InputStream, OutputStream}
use smf.Rpc.Header.{Header, Fits}
use smf.Rpc.Checksum.{rpc_checksum_payload}
use smf.Rpc.Letter.{Letter}
use smf.Rpc.Envelope.{Envelope}
use smf.Rpc.Connection.{Connection}
use smf.Rpc.RecvContext.{Platform}
use smf.Rpc.Framing.{IsSendable}
use smf.Filter.Codec.{Zstd, Lz4, Lz4Result, wrote, content_size, content_error, ContentSize}
use smf.Server.Semaphore.{Semaphore}

-- The bytes that are still to come.
abbrev pub list_input : InputStream (List ℕ)
list_input = record {
  read_exactly = λ n s. (take n s, drop n s);
  eof = λ s. false;
  pending = λ s. s;
  read-eq-take = λ n s. refl;
  pending-read = λ n s. refl;
}

abbrev pub list_output : OutputStream (List ℕ)
list_output = record {
  write = λ bs o. o ++ bs;
  flush = λ o. o;
  written = λ o. o;
  written-write = λ bs o. refl;
  written-flush = λ o. refl;
}

abbrev pub sample_platform : Platform
sample_platform = record {
  xxh64 = λ bs. length bs + 7;
  above_max = λ b. ltb 3 b;
  max_buffer_size = 2147483647;
  above_max-eq-ltb = λ b h. refl;
}

abbrev pub sample_header : Header
sample_header = record {
  compression = 0;
  bitflags = 0;
  session = 3;
  size = 2;
  checksum = 9;
  meta = 5;
}

abbrev pub sample_letter : Letter
sample_letter = record { header = sample_header; dynamic_headers = []; body = 4 ∷ 6 ∷ [] }

abbrev pub sample_envelope : Envelope
sample_envelope = record { letter = sample_letter }

pub sample_header-Fits : Fits sample_header
sample_header-Fits = record {
  compression_fits = omega arith;
  bitflags_fits = omega arith;
  session_fits = omega arith;
  size_fits = omega arith;
  checksum_fits = omega arith;
  meta_fits = omega arith;
}

pub sample_letter-IsSendable : IsSendable sample_platform sample_letter
unfolding rpc_checksum_payload
sample_letter-IsSendable = record {
  fits = sample_header-Fits;
  sized = refl;
  not_empty = omega arith;
  not_huge = omega arith;
  no_flags = refl;
  known_compression = omega arith;
  summed = refl;
  has_checksum = omega arith;
  has_meta = omega arith;
}

-- A connection whose peer has sent `bytes`.
abbrev pub with_bytes : List ℕ → Connection (List ℕ) (List ℕ)
with_bytes bytes = record {
  istream = bytes;
  ostream = [];
  istream_active_parser = 0;
  error = none;
  enabled = true;
}

-- A codec that stores the length and the data.
abbrev stored_size : List ℕ → ContentSize
stored_size [] = content_error
stored_size (n ∷ data') = content_size n

abbrev stored_data : ℕ → List ℕ → Option (List ℕ)
stored_data n [] = none
stored_data n (m ∷ data') = some data'

abbrev pub stored_zstd : Zstd
stored_zstd = record {
  find_decompressed_size = stored_size;
  decompress = stored_data;
  compress = λ data'. some (length data' ∷ data');
  size-compress = λ data' out e. ground arith;
  decompress-compress = λ data' out e. ground arith;
}

abbrev unwrapped : ℕ → List ℕ → Lz4Result
unwrapped n [] = wrote []
unwrapped n (b ∷ data') = wrote data'

abbrev pub stored_lz4 : Lz4
stored_lz4 = record {
  compress_default = λ data'. wrote (0 ∷ data');
  decompress_safe = unwrapped;
  decompress-compress = λ data' b out e. ground arith;
}

abbrev pub counter : Semaphore ℕ
counter = record {
  initial = λ n. n;
  count-initial = λ n h. refl;
  wait = λ n q. if ltb q n then none else some (q - n);
  signal = λ n q. q + n;
  count = λ q. q;
  count-wait = λ n q q' e. ground arith;
  count-signal = λ n q h. refl;
}
