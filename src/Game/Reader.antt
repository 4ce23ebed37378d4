-- ===== src/Game/Reader.antt =====
-- game/reader.go: a payload read front to back. A read is a function from the reader to what it
-- returns and the reader after it. A float32 is kept as its bit pattern.
pub mod Safe
pub mod Exact
use a2kit.Common.{
  ℕ, zero, suc, ◌+◌, ◌-◌, ◌/◌, ◌%◌, ◌^◌, Bool, true, not, ◌||◌, List, [], ◌∷◌, Option, none, some,
  ltb, ◌==◌, if◌then◌else◌, length, take, drop, byte_at, u16_le, u32_le, u64_le,
}
use a2kit.Game.Std.{uvarint, utf8_valid}

pub record Reader : Type 0 where
  pub p : List ℕ
  pub i : ℕ
  pub bad : Bool

abbrev pub Read {ℓ} : Type ℓ → Type ℓ
Read A = Reader → A × Reader

module _ {ℓ} {A : Type ℓ} where
  unfoldable pub pure : A → Read A
  pure a r = (a, r)

module _ {ℓ} {A B : Type ℓ} where
  infixl 5 ◌>>=◌ ◌>>◌
  unfoldable pub ◌>>=◌ : Read A → (A → Read B) → Read B
  ◌>>=◌ m f r = let (a, s) = m r in f a s

  abbrev pub ◌>>◌ : Read A → Read B → Read B
  m >> n = m >>= λ _. n

abbrev pub left : Reader → ℕ
left r = length r.p - r.i

-- r.bad = true, when the check holds
unfoldable pub fail_if : Bool → Read (Unit {0})
fail_if b r = (tt, record r { bad = r.bad || b })

-- end fails if bytes remain.
unfoldable pub end : Read (Unit {0})
end r = (tt, record r { bad = r.bad || not (r.i == length r.p) })

-- p[i:i+n]
abbrev window : ℕ → Reader → List ℕ
window n r = take n (drop r.i r.p)

-- take reads n bytes; `none` is its nil.
unfoldable pub take_bytes : ℕ → Read (Option (List ℕ))
take_bytes n r =
    if r.bad || ltb (left r) n
    then (none, record r { bad = true })
    else (some (window n r), record r { i = r.i + n })

unfoldable pub skip : ℕ → Read (Unit {0})
unfolding take_bytes ◌>>=◌ pure
skip n = do _ ← take_bytes n; pure tt

unfoldable pub peek : ℕ → Read (Option (List ℕ))
peek n r = if r.bad || ltb (left r) n then (none, r) else (some (window n r), r)

abbrev or_zero : (List ℕ → ℕ) → Option (List ℕ) → ℕ
or_zero f none = 0
or_zero f (some b) = f b

unfoldable pub u8 : Read ℕ
unfolding take_bytes ◌>>=◌ pure
u8 = do b ← take_bytes 1; pure (or_zero (λ b. byte_at b 0) b)

unfoldable pub u16 : Read ℕ
unfolding take_bytes ◌>>=◌ pure
u16 = do b ← take_bytes 2; pure (or_zero u16_le b)

unfoldable pub u32 : Read ℕ
unfolding take_bytes ◌>>=◌ pure
u32 = do b ← take_bytes 4; pure (or_zero u32_le b)

unfoldable pub u64 : Read ℕ
unfolding take_bytes ◌>>=◌ pure
u64 = do b ← take_bytes 8; pure (or_zero u64_le b)

-- `n` reads in a row, for a loop that fills a slice
unfoldable pub times {ℓ} : {A : Type ℓ} → ℕ → Read A → Read (List A)
unfolding ◌>>=◌ pure
times zero m = pure []
times (suc n) m = m >>= λ a. times n m >>= λ rest. pure (a ∷ rest)

unfoldable pub remaining : Read ℕ
remaining r = (left r, r)

unfoldable pub u32s : Read (List ℕ)
unfolding u8 u32 times remaining fail_if ◌>>=◌ pure
u32s = do n ← u8; l ← remaining; if ltb (l / 4) n then (do fail_if true; pure []) else times n u32

pub record Pos : Type 0 where
  pub x : ℕ
  pub y : ℕ
  pub z : ℕ

unfoldable pub pos : Read Pos
unfolding u32 ◌>>=◌ pure
pos = do x ← u32; y ← u32; z ← u32; pure (record { x = x; y = y; z = z })

-- What varint makes of binary.Uvarint's answer: at most five bytes and 32 bits.
accept_varint : Option (ℕ × ℕ) → Read ℕ
accept_varint none r = (0, record r { bad = true })
accept_varint (some (v, n)) r =
    if ltb 5 n || ltb (2 ^ 32 - 1) v
    then (0, record r { bad = true })
    else (v, record r { i = r.i + n })

unfoldable pub varint : Read ℕ
unfolding accept_varint
varint r = if r.bad then (0, r) else accept_varint (uvarint (drop r.i r.p)) r

unfoldable pub small : Read ℕ
unfolding varint fail_if ◌>>=◌ pure
small = do v ← varint; fail_if (ltb 255 v); pure (v % 256)

abbrev or_empty : Option (List ℕ) → List ℕ
or_empty none = []
or_empty (some b) = b

unfoldable pub name : Read (List ℕ)
unfolding u8 take_bytes fail_if ◌>>=◌ pure
name = do n ← u8; b ← take_bytes n; fail_if (not (utf8_valid (or_empty b))); pure (or_empty b)
