-- ===== src/Wire/Decoder/Lock.antt =====
-- wire/decoder.go: the hunt for the game's connection, the lock on it, and the frames it lets out.
-- A function on a stream has it taken out of the table, beside the decoder.
pub mod Kept
pub mod Others
pub mod Pair
pub mod Locking
use a2kit.Common.{
  Option, none, some, ℕ, ◌+◌, Bool, not, ◌&&◌, ◌||◌, List, [], ◌∷◌, ◌++◌, none, some, leb, ◌==◌,
  if◌then◌else◌, bit_or, bit_at, drop as drop_bytes,
}
use a2kit.Wire.Opcode.{opcode, known, combat}
use a2kit.Wire.Frame.{Frame, from_server, from_client}
use a2kit.Wire.Framer.State.{Emission}
use a2kit.Wire.Decoder.State.{Key, reverse, same_key, Stream, Decoder, is_set, wait}
use a2kit.Wire.Decoder.Table.{Focus, lookup, remove, drop_all}

-- f.Flags |= st.dir, on the early frames
marked : ℕ → List Frame → List Frame
marked dir [] = []
marked dir (f ∷ early) = record f { flags = bit_or f.flags dir } ∷ marked dir early

unfoldable pub queue_early : Focus → Focus
unfolding marked
queue_early f =
    let st = f.st in
    record {
      st = record st { early = []; early_bytes = 0 };
      d =
          if st.dir == from_server || f.d.config.emit_client
          then record f.d { queue = f.d.queue ++ marked st.dir st.early }
          else f.d;
    }

-- The peer's part in a lock, if there is a peer
with_peer : Focus → Option Stream → Focus
unfolding queue_early remove
with_peer f none = f
with_peer f (some peer) =
    let g = queue_early (record {
      st = record peer { dir = from_client };
      d = record f.d { streams = remove (reverse f.st.key) f.d.streams };
    }) in
    record f { d = record g.d { streams = g.st ∷ g.d.streams } }

-- A stream whose ends are the same is its own peer.
lock_peer : Focus → Focus
unfolding queue_early lookup same_key with_peer
lock_peer f =
    if same_key f.st.key (reverse f.st.key)
    then queue_early (record f { st = record f.st { dir = from_client } })
    else with_peer f (lookup (reverse f.st.key) f.d.streams)

pub keys_but : Key → List Stream → List Key
unfolding same_key
keys_but k [] = []
keys_but k (st ∷ sts) =
    let rest = keys_but k sts in if same_key st.key k then rest else st.key ∷ rest

-- The stream's own part in a lock
as_server : Focus → Focus
as_server f =
    let st = f.st in
    record {
      st = record st { dir = from_server };
      d = record f.d {
        srv = some st.key;
        lock_at = st.last;
        stats = record f.d.stats {
          locks = f.d.stats.locks + 1;
          server = some st.key.src;
          client = some st.key.dst;
        };
      };
    }

-- The drop of every stream but the pair
keep_pair : Focus → Focus
unfolding keys_but drop_all
keep_pair f = record f { d = drop_all (keys_but (reverse f.st.key) f.d.streams) f.d }

unfoldable pub lock : Focus → Focus
unfolding queue_early as_server lock_peer keep_pair
lock f = keep_pair (lock_peer (queue_early (as_server f)))

-- hunt, past its checks
counted : ℕ → Focus → Focus
unfolding lock
counted op f =
    let g = record f { st = record f.st { frames = f.st.frames + 1 } } in
    if combat op && leb 2 g.st.frames then lock g else if leb 3 g.st.frames then lock g else g

-- hunt, with whether the framer is trusted
unfoldable pub hunt : ℕ → ℕ → Bool → Focus → Focus
unfolding counted
hunt op flags trusted f =
    if not (f.st.dir == 0)
    then f
    else let g = if bit_at flags 4 then record f { st = record f.st { frames = 0 } } else f in
      if not (known op) || not trusted then g else counted op g

frame_of : Stream → List ℕ → ℕ → Frame
unfolding opcode
frame_of st body flags = record {
  time = st.at;
  src = st.key.src;
  dst = st.key.dst;
  opcode = opcode body;
  flags = flags;
  if_index = st.key.if_index;
  payload = drop_bytes 2 body;
}

-- emit, past the hunt
unfoldable pub let_out : List ℕ → ℕ → Focus → Focus
unfolding frame_of wait opcode
let_out body flags f =
    let st = f.st in
    let all = bit_or flags st.dir in
    let frame = frame_of st body all in
    if bit_at all 1 && not f.d.config.emit_client
    then f
    else if f.d.config.known_only && not (known (opcode body))
    then f
    else if st.dir == 0 && not f.d.config.emit_unlocked
    then record f { st = wait frame st }
    else record f { d = record f.d { queue = f.d.queue ++ (frame ∷ []) } }

unfoldable pub emit : Emission → Focus → Focus
unfolding hunt let_out opcode
emit e f =
    let_out e.body e.flags (if is_set f.d.srv then f else hunt (opcode e.body) e.flags e.trusted f)

unfoldable pub emit_all : List Emission → Focus → Focus
unfolding emit
emit_all [] f = f
emit_all (e ∷ es) f = emit_all es (emit e f)

-- letGo's part on the peer
let_go_peer : ℕ → Stream → Decoder → Decoder
let_go_peer t peer d =
    if is_set peer.closed
    then record d { streams = peer ∷ d.streams }
    else record d { streams = record peer { closed = some t } ∷ d.streams; closing = d.closing + 1 }

-- letGo, whose stream is closed itself
unfoldable pub let_go : ℕ → Focus → Focus
unfolding let_go_peer lookup remove
let_go t f =
    let back = reverse f.st.key in
    let d = record f.d { srv = none } in
    elim (lookup back d.streams) [
      | none ↦ record f { d = d }
      | some peer ↦ record f {
        d = let_go_peer t peer (record d { streams = remove back d.streams });
      }
    ]
