-- ===== src/Conns/Tally/Copies.antt =====
-- conns.go: copied, the copies of a segment that a capture may hold.
use a2kit.Common.{
  arith, ℕ, zero, suc, ◌+◌, Bool, true, false, not, ◌&&◌, ◌||◌, ltb, ◌≡◌, refl, ◌∙◌, if_cases, ap,
  List, [], ◌∷◌, ◌++◌, some, length, get_elem?, bit_at,
}
use a2kit.Wire.Frame.{same_addr, Segment, fin_bit, syn_bit, rst_bit, ack_bit}
use a2kit.Conns.Pair.{header_of, Header, same_header, pair_of}
use a2kit.Conns.Tally.{
  Conn, Ledger, begun, copied, counted, moved, closed, shaken, reuses, find, update, tally, at_conn,
  at_pair, is_syn,
}

-- What a segment leaves in a connection: itself, as the last one, and a SYN that would not begin
-- another
abbrev Leaves : Segment → Conn → Type 0
Leaves s c = (copied s c ≡ true) × (reuses s c ≡ false)

pub counted-copied : (s : Segment) (c : Conn) → copied s c ≡ true → counted s c ≡ c
unfolding counted
counted-copied s c h = rw h

pub same_header_refl : (h : Header) → same_header h h ≡ true
unfolding same_header same_addr
same_header_refl h = ground arith

pub shaken-keeps :
    (s : Segment) (client : Bool) (c : Conn)
    → ((shaken s client c).last ≡ c.last)
      × ((shaken s client c).fin ≡ c.fin)
      × ((shaken s client c).rst ≡ c.rst)
unfolding shaken
shaken-keeps s client c =
    let P : Conn → Type 0 = λ (d : Conn). (d.last ≡ c.last) × (d.fin ≡ c.fin) × (d.rst ≡ c.rst) in
    if_cases P (is_syn s && client) _ _ (λ _. (refl, refl, refl))
      λ _.
        if_cases P (bit_at s.flags syn_bit && not client) _ _ (λ _. (refl, refl, refl))
          λ _.
            if_cases P (client && bit_at s.flags ack_bit && ltb 0 c.syn_ack) _ _
              (λ _. (refl, refl, refl)) (λ _. (refl, refl, refl))

copied-last : (s : Segment) (c : Conn) → c.last ≡ some (header_of s, s.time) → copied s c ≡ true
unfolding copied
copied-last s c h = rw (h, same_header_refl (header_of s)) (now s.time)
  where
    now : (t : ℕ) → ltb t (t + 10000000) ≡ true
    now t = ground arith

-- Whether a segment would begin a connection and end it
abbrev pub both_ways : Segment → Bool
both_ways s = is_syn s && (bit_at s.flags fin_bit || bit_at s.flags rst_bit)

pub moved-keeps :
    (s : Segment) (client : Bool) (c : Conn)
    → ((moved s client c).last ≡ c.last)
      × ((moved s client c).fin ≡ c.fin)
      × ((moved s client c).rst ≡ c.rst)
unfolding moved
moved-keeps s true c = (refl, refl, refl)
moved-keeps s false c = (refl, refl, refl)

no_reuse :
    (syn fin rst f r : Bool)
    → syn && (fin || rst) ≡ false
    → syn && (f || r) ≡ false
    → syn && ((fin || f) || (rst || r)) ≡ false
no_reuse false fin rst f r h g = refl
no_reuse true true rst f r h g = h
no_reuse true false true f r h g = absurd (ground arith)
no_reuse true false false f r h g = g

steps-Leaves :
    (s : Segment) (client : Bool) (c : Conn)
    → reuses s c ≡ false
    → both_ways s ≡ false
    → c.last ≡ some (header_of s, s.time)
    → Leaves s (moved s client (closed s client (shaken s client c)))
unfolding reuses closed
steps-Leaves s client c h g e =
    let (a0, a1, a2) = moved-keeps s client (closed s client (shaken s client c)) in
    let (b0, b1, b2) = shaken-keeps s client c in
    (copied-last s _ (a0 ∙ b0 ∙ e), rw (a1, a2, b1, b2) (no_reuse (is_syn s) c.fin c.rst _ _ h g))

pub counted-Leaves :
    (s : Segment) (c : Conn) → reuses s c ≡ false → both_ways s ≡ false → Leaves s (counted s c)
unfolding counted reuses
counted-Leaves s c h g =
    if_cases (Leaves s) (copied s c) _ _ (λ e. (e, h))
      λ _.
        steps-Leaves s (same_addr s.src c.client)
          (record c { last = some (header_of s, s.time); end = s.time }) h g refl

pub some_eq : (a b : Conn) → some a ≡ some b → a ≡ b
some_eq a b h = cc

pub update-same :
    (f : Conn → Conn) (i : ℕ) (conns : List Conn) (c : Conn)
    → get_elem? conns i ≡ some c
    → f c ≡ c
    → update i f conns ≡ conns
unfolding update
update-same f i [] c h e = refl
update-same f zero (d ∷ conns) c h e = ap (λ (x : Conn). x ∷ conns) (rw (some_eq d c h) e)
update-same f (suc i) (d ∷ conns) c h e =
    ap (λ (xs : List Conn). d ∷ xs) (update-same f i conns c h e)

pub get-update :
    (f : Conn → Conn) (i : ℕ) (conns : List Conn) (c : Conn)
    → get_elem? conns i ≡ some c
    → get_elem? (update i f conns) i ≡ some (f c)
unfolding update
get-update f i [] c h = absurd (ground arith)
get-update f zero (d ∷ conns) c h = rw (some_eq d c h)
get-update f (suc i) (d ∷ conns) c h = get-update f i conns c h

pub get-last :
    (c : Conn) (conns : List Conn) → get_elem? (conns ++ (c ∷ [])) (length conns) ≡ some c
get-last c [] = refl
get-last c (d ∷ conns) = get-last c conns

pub begun-fresh : (s : Segment) → reuses s (begun s) ≡ false
unfolding reuses begun
begun-fresh s = ground arith

pub tally-found :
    (s : Segment) (l : Ledger) (i : ℕ) (c : Conn)
    → find (pair_of s.src s.dst s.if_index) l.current ≡ some i
    → get_elem? l.conns i ≡ some c
    → reuses s c ≡ false
    → tally s l ≡ record l { conns = update i (counted s) l.conns }
unfolding tally at_pair at_conn
tally-found s l i c h g e = rw (h, g, e)
