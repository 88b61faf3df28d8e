-- ===== src/Audio/BestFormat.antt =====
-- audio/audio.cpp: `sfmt_best_matching` loses as little of the samples as the driver allows.
use mocf.Base.{
  ℕ, ◌+◌, ◌-◌, ◌≤◌, ◌≡◌, refl, ap, sym, ◌∙◌, Bool, true, false, ◌&&◌, ◌||◌, Option, none, some,
  List, [], ◌∷◌, if◌then◌else◌, ◌⊎◌, inl, inr, arith, leb, Bool-cases,
}
use mocf.Audio.Format.{
  Format, s8, u8, s16, u16, s24, u24, s32, u32, s24_3, u24_3, float, Sfmt, FormatMask, no_endian,
  same_format, prefs, first_of, sound_format_ok, sfmt_best_matching,
}
use mocf.Audio.EveryFormat.{same_format_lem}

-- The bits of a sample that a format keeps.
abbrev pub bits : Format → ℕ
bits s8 = 8
bits u8 = 8
bits s16 = 16
bits u16 = 16
bits s24 = 24
bits u24 = 24
bits s24_3 = 24
bits u24_3 = 24
bits s32 = 32
bits u32 = 32
bits float = 32

-- What a change of the format costs: bits that are sent for nothing, and, worse than any of these, bits that
-- are lost.
abbrev pub cost : Format → Format → ℕ
cost req f = if leb (bits req) (bits f) then bits f - bits req else 100 + (bits req - bits f)

-- The costs of the list are at least `c`, and it is in the order of the cost.
abbrev all_above : Format → ℕ → List Format → Bool
all_above req c [] = true
all_above req c (g ∷ gs) = leb c (cost req g) && all_above req c gs

abbrev is_sorted : Format → List Format → Bool
is_sorted req [] = true
is_sorted req (f ∷ fs) = all_above req (cost req f) fs && is_sorted req fs

abbrev member : Format → List Format → Bool
member g [] = false
member g (f ∷ fs) = same_format g f || member g fs

-- A test that holds of every format in the list of all of them holds of every format.
abbrev all_formats : List Format
all_formats = s8 ∷ u8 ∷ s16 ∷ u16 ∷ s24 ∷ u24 ∷ s32 ∷ u32 ∷ s24_3 ∷ u24_3 ∷ float ∷ []

abbrev all : (Format → Bool) → List Format → Bool
all p [] = true
all p (f ∷ fs) = p f && all p fs

all_lem : (p : Format → Bool) → all p all_formats ≡ true → (f : Format) → p f ≡ true
all_lem p e s8 = ground arith
all_lem p e u8 = ground arith
all_lem p e s16 = ground arith
all_lem p e u16 = ground arith
all_lem p e s24 = ground arith
all_lem p e u24 = ground arith
all_lem p e s32 = ground arith
all_lem p e u32 = ground arith
all_lem p e s24_3 = ground arith
all_lem p e u24_3 = ground arith
all_lem p e float = ground arith

prefs-sorted : (req : Format) → is_sorted req (prefs req) ≡ true
unfolding prefs
prefs-sorted s8 = refl
prefs-sorted u8 = refl
prefs-sorted s16 = refl
prefs-sorted u16 = refl
prefs-sorted s24 = refl
prefs-sorted u24 = refl
prefs-sorted s32 = refl
prefs-sorted u32 = refl
prefs-sorted s24_3 = refl
prefs-sorted u24_3 = refl
prefs-sorted float = refl

-- Every other format is in the list.
prefs-covers :
    (req : Format) → all (λ g. same_format g req || member g (prefs req)) all_formats ≡ true
unfolding prefs
prefs-covers s8 = refl
prefs-covers u8 = refl
prefs-covers s16 = refl
prefs-covers u16 = refl
prefs-covers s24 = refl
prefs-covers u24 = refl
prefs-covers s32 = refl
prefs-covers u32 = refl
prefs-covers s24_3 = refl
prefs-covers u24_3 = refl
prefs-covers float = refl

above_member :
    (req : Format) (c : ℕ) (g : Format) (fs : List Format)
    → all_above req c fs ≡ true
    → member g fs ≡ true
    → c ≤ cost req g
above_member req c g [] a m = cc
above_member req c g (f ∷ fs) a m = elim (Bool-cases (same_format g f)) [
  | inl same ↦
      let e : cost req g ≡ cost req f = ap (cost req) (same_format_lem g f same) in
      ground (arith, e)
  | inr differ ↦ above_member req c g fs (ground arith) (ground arith)
]

-- What the loop over a sorted list finds: the best available format of the list, or none if none is there.
abbrev IsFirst : (Format → Bool) → Format → List Format → Option Format → Type 0
IsFirst formats req fs none = (g : Format) → member g fs ≡ true → formats g ≡ false
IsFirst formats req fs (some f) =
    (formats f ≡ true)
    × ((g : Format) → member g fs ≡ true → formats g ≡ true → cost req f ≤ cost req g)

skip :
    (formats : Format → Bool) (req f : Format) (fs : List Format) (r : Option Format)
    → formats f ≡ false
    → IsFirst formats req fs r
    → IsFirst formats req (f ∷ fs) r
skip formats req f fs none absent i = λ g m. elim (Bool-cases (same_format g f)) [
  | inl same ↦ ap formats (same_format_lem g f same) ∙ absent
  | inr differ ↦ i g (ground arith)
]
skip formats req f fs (some best) absent (there, least) = (
  there,
  λ g m avail. elim (Bool-cases (same_format g f)) [
    | inl same ↦
        absurd
          (let z : true ≡ false = sym avail ∙ ap formats (same_format_lem g f same) ∙ absent in cc)
    | inr differ ↦ least g (ground arith) avail
  ],
)

least_here :
    (formats : Format → Bool) (req f g : Format) (fs : List Format)
    → is_sorted req (f ∷ fs) ≡ true
    → member g (f ∷ fs) ≡ true
    → cost req f ≤ cost req g
least_here formats req f g fs s m = elim (Bool-cases (same_format g f)) [
  | inl same ↦
      let e : cost req g ≡ cost req f = ap (cost req) (same_format_lem g f same) in omega (arith, e)
  | inr differ ↦ above_member req (cost req f) g fs (ground arith) (ground arith)
]

first_of-IsFirst :
    (formats : Format → Bool) (req : Format) (fs : List Format)
    → is_sorted req fs ≡ true
    → IsFirst formats req fs (first_of formats fs)
unfolding first_of
first_of-IsFirst formats req [] s = λ g m. cc
first_of-IsFirst formats req (f ∷ fs) s = elim (Bool-cases (formats f)) [
  | inl here ↦ rw here (here, λ g m avail. least_here formats req f g fs s m)
  | inr absent ↦ rw absent (
      skip formats req f fs (first_of formats fs) absent
        (first_of-IsFirst formats req fs (ground arith)))
]

-- The format bit that is chosen.
abbrev choice : FormatMask → Format → Option Format
choice mask req = if mask.formats req then some req else first_of mask.formats (prefs req)

-- The cheapest format that the driver has.
abbrev pub IsCheapest : FormatMask → Format → Format → Type 0
IsCheapest mask req f =
    (mask.formats f ≡ true)
    × ((mask.formats req ≡ false) ⊎ (f ≡ req))
    × ((g : Format) → mask.formats g ≡ true → cost req f ≤ cost req g)

choice-IsCheapest :
    (mask : FormatMask) (req g : Format)
    → mask.formats g ≡ true
    → (f : Format) × (choice mask req ≡ some f) × IsCheapest mask req f
choice-IsCheapest mask req g avail = elim (Bool-cases (mask.formats req)) [
  | inl here ↦ (req, rw here refl, (here, inr refl, λ k a. no_cost k))
  | inr absent ↦
      by_search absent (first_of mask.formats (prefs req)) refl
        (first_of-IsFirst mask.formats req (prefs req) (prefs-sorted req))
]
  where
    no_cost : (k : Format) → cost req req ≤ cost req k
    no_cost k = let zero_cost : cost req req ≡ 0 = ground arith in omega (arith, zero_cost)

    listed :
        mask.formats req ≡ false
        → (k : Format) → mask.formats k ≡ true
        → member k (prefs req) ≡ true
    listed absent k a = elim (Bool-cases (same_format k req)) [
      | inl same ↦ absurd (
          let z : true ≡ false = sym a ∙ ap mask.formats (same_format_lem k req same) ∙ absent in
          cc)
      | inr differ ↦
          let c = all_lem (λ g. same_format g req || member g (prefs req)) (prefs-covers req) k in
          ground (arith, c)
    ]

    by_search :
        mask.formats req ≡ false
        → (r : Option Format) → first_of mask.formats (prefs req) ≡ r
        → IsFirst mask.formats req (prefs req) r
        → (f : Format) × (choice mask req ≡ some f) × IsCheapest mask req f
    by_search absent none e i =
        absurd (let z : true ≡ false = sym avail ∙ i g (listed absent g avail) in cc)
    by_search absent (some f) e (there, least) =
        (f, rw (absent, e) refl, (there, inl absent, λ k a. least k (listed absent k a) a))

-- Where the driver has a format and a byte order, or both, `sfmt_best_matching` passes its assertions and gives a
-- proper format that the driver has, and no other that it has costs less: it is the requested one if that is
-- there, else one that loses no bits if there is such a one, with the fewest bits, else one that loses
-- the fewest.
pub sfmt_best_matching-IsCheapest :
    (mask : FormatMask) (req : Sfmt) (g : Format)
    → mask.formats g ≡ true
    → (mask.le || mask.be) ≡ true
    → (best : Sfmt) × (sfmt_best_matching mask req ≡ some best)
      × IsCheapest mask req.format best.format
      × (sound_format_ok best ≡ true)
unfolding sfmt_best_matching
sfmt_best_matching-IsCheapest mask req g avail order =
    let (f, e, c) = choice-IsCheapest mask req.format g avail in
    elim (Bool-cases (no_endian f)) [
      | inl w ↦ (record { format = f; le = false; be = false }, rw (e, w) refl, c, rw w refl)
      | inr w ↦ (
        record { format = f; le = mask.le; be = mask.be },
        rw (e, w, order) refl,
        c,
        ground (arith, w, order),
      )
    ]
