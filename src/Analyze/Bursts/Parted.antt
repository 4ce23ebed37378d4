-- ===== src/Analyze/Bursts/Parted.antt =====
-- analyze.go: the bursts of Actions, and when it answers.
use a2kit.Common.{
  ℕ, ◌+◌, ◌≤◌, ◌<◌, true, false, ◌≡◌, refl, sym, ◌∙◌, ap, List, [], ◌∷◌, ◌++◌, append_assoc, leb,
  if_cases, arith,
}
use mathlib.Core.Path.{subst}
use a2kit.Analyze.Packets.{Packet}
use a2kit.Analyze.Bursts.{burst_gap, grow, unusual, bursts_of, bursts}

-- A packet within the gap of the one before, and one past it
abbrev Close : Packet → Packet → Type 0
Close p q = q.t ≤ p.t + burst_gap

abbrev Apart : Packet → Packet → Type 0
Apart p q = p.t + burst_gap < q.t

-- A burst, each of whose packets is close to the one before
abbrev pub IsBurst : Packet → List Packet → Type 0
IsBurst p [] = Unit
IsBurst p (q ∷ qs) = Close p q × IsBurst q qs

abbrev pub last_of : Packet → List Packet → Packet
last_of p [] = p
last_of p (q ∷ qs) = last_of q qs

-- Bursts, each of which is apart from the one before
abbrev pub AreBursts : List (Packet × List Packet) → Type 0
AreBursts [] = Unit
AreBursts ((p, ps) ∷ []) = IsBurst p ps
AreBursts ((p, ps) ∷ (q, qs) ∷ bs) =
    IsBurst p ps × Apart (last_of p ps) q × AreBursts ((q, qs) ∷ bs)

abbrev pub packets_of : List (Packet × List Packet) → List Packet
packets_of [] = []
packets_of ((p, ps) ∷ bs) = (p ∷ ps) ++ packets_of bs

grow-packets :
    (p : Packet) (ps : List Packet) (l : Packet) (qs : List Packet)
    → packets_of (grow p ps l qs) ≡ (p ∷ ps) ++ qs
unfolding grow
grow-packets p ps l [] = refl
grow-packets p ps l (q ∷ qs) =
    if_cases (λ bs. packets_of bs ≡ (p ∷ ps) ++ (q ∷ qs)) (leb q.t (l.t + burst_gap)) _ _
      (λ _. grow-packets p (ps ++ (q ∷ [])) q qs ∙ append_assoc (p ∷ ps) (q ∷ []) qs)
      λ _. ap (λ (rs : List Packet). (p ∷ ps) ++ rs) (grow-packets q [] q qs)

IsBurst-last :
    (p : Packet) (ps : List Packet) (q : Packet)
    → IsBurst p ps
    → Close (last_of p ps) q
    → IsBurst p (ps ++ (q ∷ []))
IsBurst-last p [] q h c = (c, tt)
IsBurst-last p (r ∷ rs) q (h, hs) c = (h, IsBurst-last r rs q hs c)

last-append : (p : Packet) (ps : List Packet) (q : Packet) → last_of p (ps ++ (q ∷ [])) ≡ q
last-append p [] q = refl
last-append p (r ∷ rs) q = last-append r rs q

-- Bursts of which the first begins with a packet
abbrev BeginsWith : Packet → List (Packet × List Packet) → Type 0
BeginsWith p [] = ⊥
BeginsWith p (b ∷ bs) = (b.0 ≡ p) × AreBursts (b ∷ bs)

apart :
    (p : Packet) (ps : List Packet) (q : Packet) (bs : List (Packet × List Packet))
    → IsBurst p ps
    → Apart (last_of p ps) q
    → BeginsWith q bs
    → BeginsWith p ((p, ps) ∷ bs)
apart p ps q [] h a b = absurd b
apart p ps q ((r, rs) ∷ bs) h a (e, b) =
    (refl, (h, subst (λ (x : Packet). Apart (last_of p ps) x) (sym e) a, b))

grow-AreBursts :
    (p : Packet) (ps : List Packet) (l : Packet) (qs : List Packet)
    → last_of p ps ≡ l
    → IsBurst p ps
    → BeginsWith p (grow p ps l qs)
unfolding grow
grow-AreBursts p ps l [] e h = (refl, h)
grow-AreBursts p ps l (q ∷ qs) e h =
    if_cases (BeginsWith p) (leb q.t (l.t + burst_gap)) _ _
      (λ c. grow-AreBursts p (ps ++ (q ∷ [])) q qs (last-append p ps q) (
        IsBurst-last p ps q h
          (subst (λ (x : Packet). Close x q) (sym e) (close q.t (l.t + burst_gap) c))))
      λ c.
        apart p ps q (grow q [] q qs) h
          (subst (λ (x : Packet). Apart x q) (sym e) (not_close q.t (l.t + burst_gap) c))
          (grow-AreBursts q [] q qs refl tt)
  where
    close : (a b : ℕ) → leb a b ≡ true → a ≤ b
    close a b c = ground arith

    not_close : (a b : ℕ) → leb a b ≡ false → b < a
    not_close a b c = ground arith

-- The player's bursts part the client's packets: together, in order, they are the packets of a size
-- that is not usual, each packet of a burst comes at most 250 ms after the one before it, and each
-- burst begins more than 250 ms after the end of the one before.
pub bursts-AreBursts :
    (usual : List ℕ) (sent : List Packet)
    → (packets_of (bursts usual sent) ≡ unusual usual sent) × AreBursts (bursts usual sent)
unfolding bursts bursts_of
bursts-AreBursts usual sent = parted (unusual usual sent)
  where
    begun : (p : Packet) (bs : List (Packet × List Packet)) → BeginsWith p bs → AreBursts bs
    begun p [] h = absurd h
    begun p (b ∷ bs) h = h.1

    parted : (ps : List Packet) → (packets_of (bursts_of ps) ≡ ps) × AreBursts (bursts_of ps)
    parted [] = (refl, tt)
    parted (p ∷ ps) =
        (grow-packets p [] p ps, begun p (grow p [] p ps) (grow-AreBursts p [] p ps refl tt))
