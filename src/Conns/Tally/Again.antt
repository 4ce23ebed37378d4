-- ===== src/Conns/Tally/Again.antt =====
-- conns.go: copied, on a segment that comes again at another time.
use a2kit.Common.{
  arith, ◌<◌, ◌≤◌, ◌≢◌, sym, lt→ltb, le→ltb, ℕ, ◌+◌, Bool, true, false, not, ◌&&◌, ltb, ◌≡◌, refl,
  ◌∙◌, if_cases, ap, List, Option, none, some, length, get_elem?, bit_at,
}
use a2kit.Wire.Frame.{same_addr, Segment, syn_bit, ack_bit}
use a2kit.Conns.Pair.{Pair, header_of, pair_of}
use a2kit.Conns.Symmetric.{same_pair_refl}
use a2kit.Conns.Tally.{
  Conn, Ledger, begun, begin, copied, counted, moved, closed, shaken, reuses, find, update, tally,
  at_conn, at_pair, is_syn, copy_gap,
}
use a2kit.Conns.Tally.Copies.{
  both_ways, counted-copied, same_header_refl, shaken-keeps, moved-keeps, counted-Leaves, some_eq,
  update-same, get-update, get-last, begun-fresh, tally-found,
}

-- The segment, at another time
abbrev pub again_at : ℕ → Segment → Segment
again_at t s = record s { time = t }

-- Whether `s` is no copy of the last segment of a connection
abbrev pub IsNew : Segment → List Conn → Type 0
IsNew s conns = (i : ℕ) (c : Conn) → get_elem? conns i ≡ some c → copied s c ≡ false

shaken-end : (s : Segment) (client : Bool) (c : Conn) → (shaken s client c).end ≡ c.end
unfolding shaken
shaken-end s client c =
    let P : Conn → Type 0 = λ (d : Conn). d.end ≡ c.end in
    if_cases P (is_syn s && client) _ _ (λ _. refl)
      λ _.
        if_cases P (bit_at s.flags syn_bit && not client) _ _ (λ _. refl)
          λ _.
            if_cases P (client && bit_at s.flags ack_bit && ltb 0 c.syn_ack) _ _ (λ _. refl)
              (λ _. refl)

moved-end : (s : Segment) (client : Bool) (c : Conn) → (moved s client c).end ≡ c.end
unfolding moved
moved-end s true c = refl
moved-end s false c = refl

-- What a segment that is no copy leaves
counted-last :
    (s : Segment) (c : Conn)
    → copied s c ≡ false
    → ((counted s c).last ≡ some (header_of s, s.time)) × ((counted s c).end ≡ s.time)
unfolding counted closed
counted-last s c h =
    let client = same_addr s.src c.client in
    let c' : Conn = record c { last = some (header_of s, s.time); end = s.time } in
    let c'' = closed s client (shaken s client c') in
    rw h (
      (moved-keeps s client c'').0 ∙ (shaken-keeps s client c').0,
      moved-end s client c'' ∙ shaken-end s client c',
    )

-- Such a connection takes the segment at another time for a copy, if that is within the gap.
counted-again :
    (s : Segment) (t : ℕ) (c : Conn)
    → copied s c ≡ false
    → copied (again_at t s) (counted s c) ≡ ltb t (s.time + copy_gap)
unfolding copied
counted-again s t c n = rw ((counted-last s c n).0, same_header_refl (header_of s)) refl

-- A ledger whose open connection of a segment has just counted it
abbrev HasCounted : Segment → Ledger → Type 0
HasCounted s l =
    (i : ℕ) × (c : Conn) × (find (pair_of s.src s.dst s.if_index) l.current ≡ some i)
    × (get_elem? l.conns i ≡ some (counted s c))
    × (copied s c ≡ false)
    × (reuses s (counted s c) ≡ false)

begin-HasCounted :
    (s : Segment) (l : Ledger)
    → both_ways s ≡ false
    → HasCounted s (begin s (pair_of s.src s.dst s.if_index) l)
unfolding begin find copied begun
begin-HasCounted s l g = (
  length l.conns,
  begun s,
  rw (same_pair_refl (pair_of s.src s.dst s.if_index)) refl,
  get-last (counted s (begun s)) l.conns,
  refl,
  (counted-Leaves s (begun s) (begun-fresh s) g).1,
)

tally-HasCounted :
    (s : Segment) (l : Ledger) → both_ways s ≡ false → IsNew s l.conns → HasCounted s (tally s l)
unfolding tally at_conn at_pair
tally-HasCounted s l g n = by_pair (find k l.current) refl
  where
    k : Pair
    k = pair_of s.src s.dst s.if_index

    by_conn :
        (i : ℕ) (o : Option Conn)
        → find k l.current ≡ some i
        → get_elem? l.conns i ≡ o
        → HasCounted s (at_conn s k l i o)
    by_conn i none h e = begin-HasCounted s l g
    by_conn i (some c) h e =
        if_cases (HasCounted s) (reuses s c) _ _ (λ _. begin-HasCounted s l g)
          λ r. (i, c, h, get-update (counted s) i l.conns c e, n i c e, (counted-Leaves s c r g).1)

    by_pair : (o : Option ℕ) → find k l.current ≡ o → HasCounted s (at_pair s k l o)
    by_pair none h = begin-HasCounted s l g
    by_pair (some i) h = by_conn i (get_elem? l.conns i) h refl

tally_again :
    (s : Segment) (t : ℕ) (l : Ledger) (i : ℕ) (d : Conn)
    → find (pair_of s.src s.dst s.if_index) l.current ≡ some i
    → get_elem? l.conns i ≡ some d
    → reuses s d ≡ false
    → tally (again_at t s) l ≡ record l { conns = update i (counted (again_at t s)) l.conns }
unfolding reuses
tally_again s t l i d h e r = tally-found (again_at t s) l i d h e r

get_eq : (l m : Ledger) (i : ℕ) → l ≡ m → get_elem? l.conns i ≡ get_elem? m.conns i
get_eq l m i h = ap (λ (x : Ledger). get_elem? x.conns i) h

-- A segment that comes again, with the same numbers, flags, length and adapter, is a copy if its time
-- is less than 10 ms after the first's, also if it is before, and only then. Where the first was no
-- copy of a connection's last segment and had not SYN together with FIN or RST, to tally the second
-- after it leaves the ledger as it was within the gap, and does not past it.
pub tally-tally :
    (s : Segment) (t : ℕ) (l : Ledger)
    → both_ways s ≡ false
    → IsNew s l.conns
    → (t < s.time + copy_gap → tally (again_at t s) (tally s l) ≡ tally s l)
      × (s.time + copy_gap ≤ t → tally (again_at t s) (tally s l) ≢ tally s l)
tally-tally s t l g n = (within, past)
  where
    m : Ledger
    m = tally s l

    has : HasCounted s m
    has = tally-HasCounted s l g n

    i : ℕ
    i = has.0

    d : Conn
    d = counted s has.1

    anew : Conn → Conn
    anew = counted (again_at t s)

    put : tally (again_at t s) m ≡ record m { conns = update i anew m.conns }
    put = tally_again s t m i d has.2 has.3 has.5

    copy : copied (again_at t s) d ≡ ltb t (s.time + copy_gap)
    copy = counted-again s t has.1 has.4

    within : t < s.time + copy_gap → tally (again_at t s) m ≡ m
    within h =
        put
        ∙ ap (λ (conns : List Conn). record m { conns = conns })
            (update-same anew i m.conns d has.3
              (counted-copied (again_at t s) d (copy ∙ lt→ltb t (s.time + copy_gap) h)))

    past : s.time + copy_gap ≤ t → tally (again_at t s) m ≢ m
    past h e =
        let no : copied (again_at t s) d ≡ false = copy ∙ le→ltb t (s.time + copy_gap) h in
        let now = (counted-last (again_at t s) d no).1 in
        let before = (counted-last s has.1 has.4).1 in
        let same : some (anew d) ≡ some d =
          sym (get-update anew i m.conns d has.3)
          ∙ get_eq (record m { conns = update i anew m.conns }) m i (sym put ∙ e)
          ∙ has.3 in
        let ends = ap (λ (c : Conn). c.end) (some_eq (anew d) d same) in
        absurd (omega (arith, h, sym now ∙ ends ∙ before))
