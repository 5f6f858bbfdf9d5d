-- ===== src/Wire/Reader.antt =====
-- `struct Reader` of src/proto/wire.h. `rest` is what lies between `p` and `end`. A read returns its
-- value and the reader after it.
use rivt.Base.{ℕ, Bool, true, false, not, ◌||◌, [], length, take, drop, ltb, if◌then◌else◌}
use rivt.Base.Bytes.{Bytes, le_value}
use rivt.Base.Int.{ℤ, signed32}

pub record Reader : Type 0 where
  pub rest : Bytes
  pub ok : Bool

-- `Reader(data, len)`
abbrev pub start : Bytes → Reader
start b = record { rest = b; ok = true }

abbrev pub Read {ℓ} : Type ℓ → Type ℓ
Read A = Reader → A × Reader

abbrev pub pure {ℓ} : {A : Type ℓ} → A → Read A
pure a r = (a, r)

infixl 5 ◌>>=◌
abbrev pub ◌>>=◌ {ℓ κ} : {A : Type ℓ} {B : Type κ} → Read A → (A → Read B) → Read B
◌>>=◌ m f r = let (a, r') = m r in f a r'

-- A failed read copies nothing, latches `ok` and stays where it is.
unfoldable pub raw : ℕ → Read Bytes
raw n r =
    if not r.ok || ltb (length r.rest) n
    then ([], record r { ok = false })
    else (take n r.rest, record r { rest = drop n r.rest })

-- The variable that `raw` copies into starts as 0, which no bytes leave as it is.
unfoldable pub number : ℕ → Read ℕ
number n r = let (b, r') = raw n r in (le_value b, r')

unfoldable pub u8 : Read ℕ
u8 = number 1

unfoldable pub u16 : Read ℕ
u16 = number 2

unfoldable pub u32 : Read ℕ
u32 = number 4

unfoldable pub u64 : Read ℕ
u64 = number 8

unfoldable pub i32 : Read ℤ
i32 r = let (v, r') = number 4 r in (signed32 v, r')

-- A length that runs past the end fails behind the length.
unfoldable pub str : Read Bytes
str r =
    let (n, r') = u32 r in
    if not r'.ok || ltb (length r'.rest) n
    then ([], record r' { ok = false })
    else (take n r'.rest, record r' { rest = drop n r'.rest })

abbrev pub remaining : Reader → ℕ
remaining r = length r.rest

-- `skip` does not ask `ok`, and moves to the end when it fails.
unfoldable pub skip : ℕ → Reader → Reader
skip n r =
    if ltb (length r.rest) n
    then record { rest = []; ok = false }
    else record r { rest = drop n r.rest }
