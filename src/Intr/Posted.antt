-- ===== src/Intr/Posted.antt =====
-- The device's side of an aggregated ring: it writes an entry at its own index, with its own colour,
-- which changes at the end of the ring.
use qdmav.Prelude.{
  ℕ, zero, suc, ◌+◌, ◌-◌, ◌≤◌, ◌<◌, ◌≡◌, ◌≢◌, refl, sym, ◌∙◌, arith, Bool, true, false, not, List,
  [], ◌∷◌, some, ◌==◌, if◌then◌else◌, ltb, set, get_elem?, length, length-set, get_elem?-set_self,
  get_elem?-set_ne, Bool-cases, inl, inr,
}
use qdmav.Intr.{RingEntry}

pub record Writer : Type 0 where
  pub ring : List RingEntry
  pub pidx : ℕ
  pub color : Bool

abbrev pub next_idx : ℕ → ℕ → ℕ
next_idx size i = if i + 1 == size then 0 else i + 1

abbrev pub next_color : ℕ → ℕ → Bool → Bool
next_color size i c = if i + 1 == size then not c else c

unfoldable pub post : ℕ → RingEntry → Writer → Writer
post size e w = record {
  ring = set w.ring w.pidx (record e { coal_color = w.color });
  pidx = next_idx size w.pidx;
  color = next_color size w.pidx w.color;
}

unfoldable pub post_all : ℕ → List RingEntry → Writer → Writer
post_all size [] w = w
post_all size (e ∷ es) w = post_all size es (post size e w)

-- Entries below the index are of this lap around the ring, the others of the one before.
pub record InLap (size : ℕ) (w : Writer) : Type 0 where
  pub whole : length w.ring ≡ size
  pub inside : w.pidx < size
  pub laps :
      (i : ℕ) (e : RingEntry)
      → get_elem? w.ring i ≡ some e
      → e.coal_color ≡ (if ltb i w.pidx then w.color else not w.color)

pub not-not : (b : Bool) → not (not b) ≡ b
not-not true = refl
not-not false = refl

get_elem?-lt {ℓ} :
    {A : Type ℓ} (xs : List A) (i : ℕ) {a : A} → get_elem? xs i ≡ some a → i < length xs
get_elem?-lt [] i h = cc
get_elem?-lt (x ∷ xs) zero h = omega arith
get_elem?-lt (x ∷ xs) (suc i) h = omega (arith, get_elem?-lt xs i h)

post_laps :
    (size : ℕ) (e : RingEntry) (w : Writer)
    → InLap size w
    → (i : ℕ) (f : RingEntry) → get_elem? (post size e w).ring i ≡ some f
    → f.coal_color
      ≡ (if ltb i (post size e w).pidx then (post size e w).color else not (post size e w).color)
unfolding post
post_laps size e w v i f h =
    let r : RingEntry = record e { coal_color = w.color } in
    let n : i < length (set w.ring w.pidx r) = get_elem?-lt (set w.ring w.pidx r) i h in
    let l : i < size = omega (arith, n, length-set w.ring w.pidx r, v.whole) in
    elim (Bool-cases (w.pidx == i)) [
      | inl same ↦
          let p : w.pidx ≡ i = ground arith in
          let s : get_elem? (set w.ring w.pidx r) w.pidx ≡ some r =
            get_elem?-set_self w.ring w.pidx r (omega (arith, v.whole, v.inside)) in
          let c : f.coal_color ≡ w.color = cc (s, h, p) in ground (arith, c, not-not w.color)
      | inr other ↦
          let p : w.pidx ≢ i = λ q. ground arith in
          let k : get_elem? w.ring i ≡ some f = sym (get_elem?-set_ne w.ring r p) ∙ h in
          ground (arith, v.laps i f k, not-not w.color)
    ]

post_inside : (size : ℕ) (e : RingEntry) (w : Writer) → InLap size w → (post size e w).pidx < size
unfolding post
post_inside size e w v = ground (arith, v.inside)

pub post-InLap : (size : ℕ) (e : RingEntry) (w : Writer) → InLap size w → InLap size (post size e w)
post-InLap size e w v = record {
  whole = unfold post in length-set w.ring w.pidx _ ∙ v.whole;
  inside = post_inside size e w v;
  laps = post_laps size e w v;
}

-- How far `i` lies ahead of `p` around the ring.
abbrev pub ahead : ℕ → ℕ → ℕ → ℕ
ahead size p i = if ltb i p then i + size - p else i - p

pub post_all-keeps :
    (size : ℕ) (es : List RingEntry) (w : Writer) (i : ℕ)
    → w.pidx < size
    → i < size
    → length es ≤ ahead size w.pidx i
    → get_elem? (post_all size es w).ring i ≡ get_elem? w.ring i
unfolding post_all post
post_all-keeps size [] w i p l h = refl
post_all-keeps size (e ∷ es) w i p l h =
    let r : RingEntry = record e { coal_color = w.color } in
    let q : w.pidx ≢ i = λ q. absurd (ground arith) in
    post_all-keeps size es (post size e w) i (ground arith) l (ground arith)
    ∙ get_elem?-set_ne w.ring r q

pub post_all-InLap :
    (size : ℕ) (es : List RingEntry) (w : Writer) → InLap size w → InLap size (post_all size es w)
unfolding post_all
post_all-InLap size [] w v = v
post_all-InLap size (e ∷ es) w v = post_all-InLap size es (post size e w) (post-InLap size e w v)
