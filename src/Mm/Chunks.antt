-- ===== src/Mm/Chunks.antt =====
-- The nested loops of `descq_mm_proc_request` as one pass over a list of chunks.
use qdmav.Prelude.{
  ℕ, zero, suc, ◌+◌, ◌-◌, ◌≤◌, ◌<◌, min, ◌≡◌, refl, sym, ap, ◌∙◌, Bool, List, [], ◌∷◌, ◌++◌, arith,
  add64, ◌==◌, if◌then◌else◌, take, length, All,
}
use qdmav.Request.{SwSg}
use qdmav.Request.Sgl.{total}
use qdmav.Mm.{desc_blen_max, MmLoop, mm_put, mm_fill, mm_entry, mm_sgl}

-- An address and a length.
abbrev pub Chunk : Type 0
Chunk = ℕ × ℕ

-- A stretch of `len` bytes cut into chunks of at most `desc_blen_max`; the first number bounds them.
unfoldable pub cut : ℕ → ℕ → ℕ → List Chunk
cut zero addr len = []
cut (suc n) addr len =
    let c = min len desc_blen_max in
    let rest = cut n (add64 addr c) (len - c) in if len == 0 then [] else (addr, c) ∷ rest

unfoldable pub chunks : List SwSg → List Chunk
chunks [] = []
chunks (sg ∷ sgl) = cut sg.len sg.dma_addr sg.len ++ chunks sgl

-- One descriptor for each chunk.
unfoldable pub put_all : Bool → ℕ → List Chunk → MmLoop → MmLoop
put_all c2h rngsz [] s = s
put_all c2h rngsz ((addr, len) ∷ cs) s = put_all c2h rngsz cs (mm_put c2h rngsz addr len s)

cut-zero : (n addr : ℕ) → cut n addr 0 ≡ []
unfolding cut
cut-zero zero addr = refl
cut-zero (suc n) addr = refl

-- `mm_fill` writes the first `room` chunks and returns the room that is left.
mm_fill-cut :
    (c2h : Bool) (rngsz room n addr len : ℕ) (s : MmLoop)
    → len ≤ n
    → mm_fill c2h rngsz room addr len s
      ≡ (room - length (cut n addr len), put_all c2h rngsz (take room (cut n addr len)) s)
unfolding mm_fill cut put_all
mm_fill-cut c2h rngsz zero n addr len s h = ground arith
mm_fill-cut c2h rngsz (suc room) zero addr len s h = ground arith
mm_fill-cut c2h rngsz (suc room) (suc n) addr len s h = ground (
  arith,
  mm_fill-cut c2h rngsz room n (add64 addr (min len desc_blen_max)) (len - min len desc_blen_max)
      (mm_put c2h rngsz addr (min len desc_blen_max) s),
)

put_all-append :
    (c2h : Bool) (rngsz : ℕ) (cs ds : List Chunk) (s : MmLoop)
    → put_all c2h rngsz (cs ++ ds) s ≡ put_all c2h rngsz ds (put_all c2h rngsz cs s)
unfolding put_all
put_all-append c2h rngsz [] ds s = refl
put_all-append c2h rngsz ((addr, len) ∷ cs) ds s = put_all-append c2h rngsz cs ds _

pub take-nil {ℓ} : {A : Type ℓ} (n : ℕ) → take {A = A} n [] ≡ []
take-nil zero = refl
take-nil (suc n) = refl

pub take-append {ℓ} :
    {A : Type ℓ} (n : ℕ) (xs ys : List A) → take n (xs ++ ys) ≡ take n xs ++ take (n - length xs) ys
take-append zero xs ys = let e : 0 - length xs ≡ 0 = omega arith in rw e
take-append (suc n) [] ys = let e : suc n - 0 ≡ suc n = omega arith in rw e
take-append (suc n) (x ∷ xs) ys =
    let e : suc n - suc (length xs) ≡ n - length xs = omega arith in
    ap (λ t. x ∷ t) (take-append n xs ys ∙ ap (λ k. take n xs ++ take k ys) (sym e))

-- A fresh walk over a list writes the first `room` chunks of the list, in order.
pub mm_sgl-eq-put_all :
    (c2h : Bool) (rngsz room : ℕ) (sgl : List SwSg) (s : MmLoop)
    → mm_sgl c2h rngsz room sgl 0 s ≡ put_all c2h rngsz (take room (chunks sgl)) s
unfolding mm_sgl chunks mm_entry put_all
mm_sgl-eq-put_all c2h rngsz room [] s = rw (take-nil room)
mm_sgl-eq-put_all c2h rngsz zero (sg ∷ sgl) s = refl
mm_sgl-eq-put_all c2h rngsz (suc room) (sg ∷ sgl) s =
    rw (mm_fill-cut c2h rngsz (suc room) sg.len sg.dma_addr sg.len s (omega arith)) (
      mm_sgl-eq-put_all c2h rngsz (suc room - length here) sgl
        (put_all c2h rngsz (take (suc room) here) s)
      ∙ sym (put_all-append c2h rngsz (take (suc room) here) _ s)
      ∙ ap (λ cs. put_all c2h rngsz cs s) (sym (take-append (suc room) here (chunks sgl))))
  where
    here : List Chunk
    here = cut sg.len sg.dma_addr sg.len

-- The bytes of some chunks.
abbrev pub bytes : List Chunk → ℕ
bytes [] = 0
bytes ((addr, len) ∷ cs) = len + bytes cs

-- A descriptor carries between 1 and 2^28 - 1 bytes.
abbrev pub IsChunk : Chunk → Type 0
IsChunk (addr, len) = (0 < len) × (len ≤ desc_blen_max)

bytes-append : (cs ds : List Chunk) → bytes (cs ++ ds) ≡ bytes cs + bytes ds
bytes-append [] ds = omega arith
bytes-append ((addr, len) ∷ cs) ds = omega (arith, bytes-append cs ds)

bytes-cut : (n addr len : ℕ) → len ≤ n → bytes (cut n addr len) ≡ len
unfolding cut
bytes-cut zero addr len h = omega arith
bytes-cut (suc n) addr len h =
    let c = min len desc_blen_max in ground (arith, bytes-cut n (add64 addr c) (len - c))

cut-IsChunk : (n addr len : ℕ) → All IsChunk (cut n addr len)
unfolding cut
cut-IsChunk zero addr len = tt
cut-IsChunk (suc n) addr len =
    let c = min len desc_blen_max in ground (arith, cut-IsChunk n (add64 addr c) (len - c))

pub All-append {ℓ κ} :
    {A : Type ℓ} (P : A → Type κ) (xs ys : List A) → All P xs → All P ys → All P (xs ++ ys)
All-append P [] ys h k = k
All-append P (x ∷ xs) ys h k = (h.0, All-append P xs ys h.1 k)

-- The chunks of a list carry exactly its bytes, each no more than a descriptor can.
pub chunks_lem : (sgl : List SwSg) → (bytes (chunks sgl) ≡ total sgl) × All IsChunk (chunks sgl)
unfolding chunks
chunks_lem [] = (refl, tt)
chunks_lem (sg ∷ sgl) =
    let here = cut sg.len sg.dma_addr sg.len in
    let (b, a) = chunks_lem sgl in
    (
      omega (
        arith,
        bytes-append here (chunks sgl),
        bytes-cut sg.len sg.dma_addr sg.len (omega arith),
        b,
      ),
      All-append IsChunk here (chunks sgl) (cut-IsChunk sg.len sg.dma_addr sg.len) a,
    )
