-- ===== src/Conns/Tally/Invariant.antt =====
-- conns.go: the ledger, as tally keeps it.
use a2kit.Common.{
  arith, ℕ, zero, suc, ◌<◌, Bool, true, false, not, ◌&&◌, ◌||◌, ltb, ◌==◌, if◌then◌else◌, ◌≡◌, refl,
  ◌∙◌, if_cases, List, [], ◌∷◌, ◌++◌, Option, none, some, length, get_elem?, All, All-map, All-last,
  bit_at,
}
use a2kit.Wire.Frame.{same_addr, Segment, syn_bit, rst_bit, ack_bit}
use a2kit.Conns.Pair.{Pair, header_of, pair_of}
use a2kit.Conns.Symmetric.{pair_of-sym}
use a2kit.Conns.Tally.{
  Conn, Ledger, begun, begin, counted, from_server, copied, moved, closed, shaken, reuses, find,
  update, tally, at_conn, at_pair, is_syn,
}

abbrev pub pair_in : Conn → Pair
pair_in c = pair_of c.client c.server c.if_index

-- What a connection's flags say of each other
abbrev pub IsConn : Conn → Type 0
IsConn c = (c.refused ≡ true → c.rst ≡ true) × (c.acked ≡ true → 0 < c.syn_ack)

-- An index of a connection that has the pair
abbrev pub IsAt : Pair → Option Conn → Type 0
IsAt k none = ⊥
IsAt k (some c) = pair_in c ≡ k

-- Every entry of the map is a connection of its pair, and every connection is one.
abbrev pub IsLedger : Ledger → Type 0
IsLedger l = All (λ e. IsAt e.0 (get_elem? l.conns e.1)) l.current × All IsConn l.conns

-- A step of tally on a connection
abbrev Stays : Conn → Conn → Type 0
Stays c c' = (pair_in c' ≡ pair_in c) × (IsConn c → IsConn c')

answered : (a b : Bool) (n : ℕ) → a && b && ltb 0 n ≡ true → 0 < n
answered a b n h = ground arith

refusal :
    (refused rst bit x y : Bool)
    → (refused ≡ true → rst ≡ true)
    → refused || bit && x && y ≡ true
    → rst || bit ≡ true
refusal true rst bit x y h g = rw (h refl)
refusal false true bit x y h g = refl
refusal false false true x y h g = refl
refusal false false false x y h g = g

shaken-Stays : (s : Segment) (client : Bool) (c : Conn) → Stays c (shaken s client c)
unfolding shaken
shaken-Stays s client c =
    if_cases (Stays c) (is_syn s && client) _ _ (λ _. (refl, λ h. (h.0, λ a. omega (arith, h.1 a))))
      λ _.
        if_cases (Stays c) (bit_at s.flags syn_bit && not client) _ _
          (λ _. (refl, λ h. (h.0, λ a. omega (arith, h.1 a))))
          λ _.
            if_cases (Stays c) (client && bit_at s.flags ack_bit && ltb 0 c.syn_ack) _ _
              (λ g. (refl, λ h. (h.0, λ a. answered client (bit_at s.flags ack_bit) c.syn_ack g)))
              λ _. (refl, λ h. h)

closed-Stays : (s : Segment) (client : Bool) (c : Conn) → Stays c (closed s client c)
unfolding closed
closed-Stays s client c = (
  refl,
  λ h. (
    λ r. refusal c.refused c.rst (bit_at s.flags rst_bit) (not client) (c.syn_ack == 0) h.0 r,
    h.1,
  ),
)

moved-Stays : (s : Segment) (client : Bool) (c : Conn) → Stays c (moved s client c)
unfolding moved
moved-Stays s true c = (refl, λ h. h)
moved-Stays s false c = (refl, λ h. h)

counted-Stays : (s : Segment) (c : Conn) → Stays c (counted s c)
unfolding counted
counted-Stays s c =
    if_cases (Stays c) (copied s c) _ _ (λ _. (refl, λ h. h))
      λ _.
        steps (same_addr s.src c.client)
          (record c { last = some (header_of s, s.time); end = s.time }) (refl, λ h. h)
  where
    steps :
        (client : Bool) (c' : Conn)
        → Stays c c'
        → Stays c (moved s client (closed s client (shaken s client c')))
    steps client c' h =
        let a = shaken-Stays s client c' in
        let b = closed-Stays s client (shaken s client c') in
        let m = moved-Stays s client (closed s client (shaken s client c')) in
        (m.0 ∙ b.0 ∙ a.0 ∙ h.0, λ i. m.1 (b.1 (a.1 (h.1 i))))

begun-pair : (s : Segment) → pair_in (begun s) ≡ pair_of s.src s.dst s.if_index
unfolding begun
begun-pair s = by_side (from_server s)
  where
    by_side :
        (b : Bool)
        → pair_of (if b then s.dst else s.src) (if b then s.src else s.dst) s.if_index
          ≡ pair_of s.src s.dst s.if_index
    by_side true = pair_of-sym s.dst s.src s.if_index
    by_side false = refl

begun-IsConn : (s : Segment) → IsConn (begun s)
unfolding begun
begun-IsConn s = (λ r. r, λ a. ground arith)

IsAt-append :
    (k : Pair) (i : ℕ) (conns new : List Conn)
    → IsAt k (get_elem? conns i)
    → IsAt k (get_elem? (conns ++ new) i)
IsAt-append k i [] new h = absurd h
IsAt-append k zero (c ∷ conns) new h = h
IsAt-append k (suc i) (c ∷ conns) new h = IsAt-append k i conns new h

IsAt-last :
    (k : Pair) (c : Conn) (conns : List Conn)
    → pair_in c ≡ k
    → IsAt k (get_elem? (conns ++ (c ∷ [])) (length conns))
IsAt-last k c [] h = h
IsAt-last k c (d ∷ conns) h = IsAt-last k c conns h

module _ (f : Conn → Conn) (keeps : (c : Conn) → Stays c (f c)) where
  IsAt-update :
      (k : Pair) (i j : ℕ) (conns : List Conn)
      → IsAt k (get_elem? conns j)
      → IsAt k (get_elem? (update i f conns) j)
  unfolding update
  IsAt-update k i j [] h = absurd h
  IsAt-update k zero zero (c ∷ conns) h = (keeps c).0 ∙ h
  IsAt-update k zero (suc j) (c ∷ conns) h = h
  IsAt-update k (suc i) zero (c ∷ conns) h = h
  IsAt-update k (suc i) (suc j) (c ∷ conns) h = IsAt-update k i j conns h

  IsConn-update : (i : ℕ) (conns : List Conn) → All IsConn conns → All IsConn (update i f conns)
  unfolding update
  IsConn-update i [] h = h
  IsConn-update zero (c ∷ conns) (h, hs) = ((keeps c).1 h, hs)
  IsConn-update (suc i) (c ∷ conns) (h, hs) = (h, IsConn-update i conns hs)

begin-IsLedger :
    (s : Segment) (l : Ledger) → IsLedger l → IsLedger (begin s (pair_of s.src s.dst s.if_index) l)
unfolding begin
begin-IsLedger s l (at, all) = (
  (
    IsAt-last _ _ l.conns ((counted-Stays s (begun s)).0 ∙ begun-pair s),
    All-map _ _ (λ e h. IsAt-append e.0 e.1 l.conns _ h) l.current at,
  ),
  All-last IsConn l.conns _ all ((counted-Stays s (begun s)).1 (begun-IsConn s)),
)

-- tally keeps the ledger well formed, for every segment: each entry of the map is the index of a
-- connection that has the entry's pair, and in each connection a refusal comes with a reset, and an
-- acknowledged answer with an answer.
pub tally-IsLedger : (s : Segment) (l : Ledger) → IsLedger l → IsLedger (tally s l)
unfolding tally at_conn at_pair
tally-IsLedger s l h = by_pair (find k l.current)
  where
    k : Pair
    k = pair_of s.src s.dst s.if_index

    by_conn : (i : ℕ) (o : Option Conn) → IsLedger (at_conn s k l i o)
    by_conn i none = begin-IsLedger s l h
    by_conn i (some c) =
        let f = counted s in
        if_cases IsLedger (reuses s c) _ _ (λ _. begin-IsLedger s l h)
          λ _. (
            All-map _ _ (λ e a. IsAt-update f (counted-Stays s) e.0 i e.1 l.conns a) l.current h.0,
            IsConn-update f (counted-Stays s) i l.conns h.1,
          )

    by_pair : (o : Option ℕ) → IsLedger (at_pair s k l o)
    by_pair none = begin-IsLedger s l h
    by_pair (some i) = by_conn i (get_elem? l.conns i)
