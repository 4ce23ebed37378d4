-- ===== src/Wire/Frame.antt =====
-- wire/frame.go: flags and frames; wire/segment.go: a segment and its TCP flags.
-- An address is its length in bits and its value, and a time counts nanoseconds.
pub mod Names
use a2kit.Common.{
  ℕ, suc, ◌+◌, ◌^◌, bit_or, Bool, ◌&&◌, List, [], ◌∷◌, Option, none, some, ◌==◌, if◌then◌else◌,
  bit_at,
}
use Prim.Native.String.{String}
use text.Mathlib.Text.{◌==◌ as str_eq}

pub record AddrPort : Type 0 where
  pub bits : ℕ
  pub addr : ℕ
  pub port : ℕ

unfoldable pub same_addr : AddrPort → AddrPort → Bool
same_addr a b = a.bits == b.bits && a.addr == b.addr && a.port == b.port

abbrev pub from_server : ℕ
from_server = 1

abbrev pub from_client : ℕ
from_client = 2

abbrev pub was_lz4 : ℕ
was_lz4 = 4

abbrev pub was_bundled : ℕ
was_bundled = 8

abbrev pub resynced : ℕ
resynced = 16

pub record Frame : Type 0 where
  pub time : ℕ
  pub src : AddrPort
  pub dst : AddrPort
  pub opcode : ℕ
  pub flags : ℕ
  pub if_index : ℕ
  pub payload : List ℕ

abbrev pub flag_names : List String
flag_names = "server" ∷ "client" ∷ "lz4" ∷ "bundled" ∷ "resynced" ∷ []

names_from : ℕ → List String → ℕ → List String
names_from i [] f = []
names_from i (s ∷ names) f =
    let rest = names_from (i + 1) names f in if bit_at f i then s ∷ rest else rest

-- names, the strings of MarshalJSON
unfoldable pub names : ℕ → List String
unfolding names_from
names f = names_from 0 flag_names f

-- slices.Index
index : String → List String → Option ℕ
index s [] = none
index s (n ∷ list) =
    if str_eq n s then some 0 else elim (index s list) [ none ↦ none | some i ↦ some (suc i) ]

set_flag : Option ℕ → ℕ → ℕ
set_flag none f = f
set_flag (some i) f = bit_or f (2 ^ i)

names_loop : List String → ℕ → ℕ
unfolding index set_flag
names_loop [] f = f
names_loop (s ∷ list) f = names_loop list (set_flag (index s flag_names) f)

-- UnmarshalJSON, from the list of strings on
unfoldable pub from_names : List String → ℕ
unfolding names_loop
from_names list = names_loop list 0

-- The TCP header's flag bits, by their position
abbrev pub fin_bit : ℕ
fin_bit = 0

abbrev pub syn_bit : ℕ
syn_bit = 1

abbrev pub rst_bit : ℕ
rst_bit = 2

abbrev pub ack_bit : ℕ
ack_bit = 4

pub record Segment : Type 0 where
  pub time : ℕ
  pub src : AddrPort
  pub dst : AddrPort
  pub flags : ℕ
  pub if_index : ℕ
  pub seq : ℕ
  pub ack : ℕ
  pub payload : List ℕ
