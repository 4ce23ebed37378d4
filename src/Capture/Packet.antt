-- ===== src/Capture/Packet.antt =====
-- capture/capture.go: a packet, and what reading one may answer.
use a2kit.Common.{ℕ, ◌+◌, ◌*◌, ◌%◌, ◌/◌, ◌^◌, List}

-- A time: seconds since 1970 as the word of an int64, and nanoseconds below a second
pub record Time : Type 0 where
  pub sec : ℕ
  pub ns : ℕ

-- time.Unix, whose nanoseconds may be a second or more
abbrev pub unix : ℕ → ℕ → Time
unix sec ns = record { sec = (sec + ns / 1000000000) % 2 ^ 64; ns = ns % 1000000000 }

-- The nanoseconds since the least time that an int64 of seconds gives
abbrev pub since_least : Time → ℕ
since_least t = (t.sec + 2 ^ 63) % 2 ^ 64 * 1000000000 + t.ns

-- `bytes` is the field data.
pub record Packet : Type 0 where
  pub time : Time
  pub link_type : ℕ
  pub if_index : ℕ
  pub orig : ℕ
  pub bytes : List ℕ

-- The errors, one for each message
pub data Error : Type 0 where
  not_capture : Error
  truncated : Error
  packet_length : ℕ → Error
  no_section : Error
  short_block : Error
  no_iface : Error
  byte_order : Error
  block_length : ℕ → Error
  lengths_disagree : Error
  version : Error
  option_end : Error
  bad_resolution : ℕ → Error
  packet_end : Error

-- What a read answers: a value and the reader after it, io.EOF, or an error
pub data Read (A S : Type 0) : Type 0 where
  got : A → S → Read A S
  eof : Read A S
  failed : Error → Read A S

-- A value or an error
pub data Result (A : Type 0) : Type 0 where
  ok : A → Result A
  err : Error → Result A
