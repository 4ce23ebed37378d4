-- ===== src/Wire/Decoder/State.antt =====
-- wire/stream.go and wire/decoder.go: the state of a stream and of the decoder. A stream is known by
-- its key. A time counts nanoseconds, and one that is not set is `none`.
use a2kit.Common.{
  ℕ, ◌+◌, ◌-◌, ◌^◌, Bool, true, false, ◌&&◌, ◌||◌, List, [], ◌∷◌, ◌++◌, Option, none, some, ltb,
  leb, ◌==◌, if◌then◌else◌, length, byte_at, sub32,
}
use a2kit.Wire.Frame.{AddrPort, same_addr, Frame, from_server, from_client}
use a2kit.Wire.Framer.State.{Framer}

abbrev pub max_streams : ℕ
max_streams = 64

abbrev pub max_held : ℕ
max_held = 64

abbrev pub max_early : ℕ
max_early = 64

abbrev pub max_held_bytes : ℕ
max_held_bytes = 2 ^ 18

abbrev pub max_early_bytes : ℕ
max_early_bytes = 2 ^ 18

abbrev pub max_gap_wait : ℕ
max_gap_wait = 1000000000

abbrev pub close_grace : ℕ
close_grace = 2000000000

pub record Key : Type 0 where
  pub src : AddrPort
  pub dst : AddrPort
  pub if_index : ℕ

abbrev pub reverse : Key → Key
reverse k = record { src = k.dst; dst = k.src; if_index = k.if_index }

unfoldable pub same_key : Key → Key → Bool
same_key a b = same_addr a.src b.src && same_addr a.dst b.dst && a.if_index == b.if_index

-- `bytes` is the field data.
pub record Piece : Type 0 where
  pub seq : ℕ
  pub t : ℕ
  pub bytes : List ℕ

pub record Stream : Type 0 where
  pub key : Key
  pub dir : ℕ
  pub last : ℕ
  pub at : ℕ
  pub closed : Option ℕ
  pub fr : Framer
  pub born : ℕ
  pub frames : ℕ
  pub synced : Bool
  pub next : ℕ
  pub syn : ℕ
  pub held_bytes : ℕ
  pub held : List Piece
  pub early : List Frame
  pub early_bytes : ℕ

pub record Config : Type 0 where
  pub emit_client : Bool
  pub emit_unlocked : Bool
  pub known_only : Bool
  pub parse_tls : Bool
  pub lock_idle : ℕ

-- Stats, whose field Locked is whether there is a lock
pub record Stats : Type 0 where
  pub locks : ℕ
  pub resyncs : ℕ
  pub client_resyncs : ℕ
  pub server : Option AddrPort
  pub client : Option AddrPort

-- `queue` holds the frames from index head on.
pub record Decoder : Type 0 where
  pub config : Config
  pub born : ℕ
  pub closing : ℕ
  pub held : ℕ
  pub streams : List Stream
  pub srv : Option Key
  pub lock_at : ℕ
  pub stats : Stats
  pub queue : List Frame

-- NewDecoder
abbrev pub new_decoder : Config → Decoder
new_decoder config = record {
  config = record config {
    lock_idle = if config.lock_idle == 0 then 60000000000 else config.lock_idle;
  };
  born = 0;
  closing = 0;
  held = 0;
  streams = [];
  srv = none;
  lock_at = 0;
  stats = record { locks = 0; resyncs = 0; client_resyncs = 0; server = none; client = none };
  queue = [];
}

unfoldable pub count : Stream → Stats → Stats
count st s =
    if st.dir == from_server
    then record s { resyncs = s.resyncs + st.fr.resyncs }
    else if st.dir == from_client
    then record s { client_resyncs = s.client_resyncs + st.fr.resyncs }
    else s

abbrev pub is_set {ℓ} : {A : Type ℓ} → Option A → Bool
is_set none = false
is_set (some a) = true

-- after: int32(a-b) > 0
unfoldable pub after : ℕ → ℕ → Bool
after a b = ltb 0 (sub32 a b) && ltb (sub32 a b) (2 ^ 31)

-- stale, on the pieces held
unfoldable pub stale : List Piece → ℕ → Bool
stale [] t = false
stale (pc ∷ held) t = leb (pc.t + max_gap_wait) t || stale held t

unfoldable pub tls_like : List ℕ → Bool
tls_like p =
    leb 5 (length p)
    && leb 0x14 (byte_at p 0)
    && leb (byte_at p 0) 0x17
    && byte_at p 1 == 0x03
    && leb (byte_at p 2) 0x04

-- The loop of wait, on early and earlyBytes. Where earlyBytes is more than the frames hold, the source
-- panics at the first of none.
unfoldable pub trim_early : List Frame → ℕ → List Frame × ℕ
trim_early [] n = ([], n)
trim_early (f ∷ early) n =
    let rest = trim_early early (n - length f.payload) in
    if ltb max_early (length (f ∷ early)) || ltb max_early_bytes n then rest else (f ∷ early, n)

unfoldable pub wait : Frame → Stream → Stream
unfolding trim_early
wait f st =
    let (early, n) = trim_early (st.early ++ (f ∷ [])) (st.early_bytes + length f.payload) in
    record st { early = early; early_bytes = n }
