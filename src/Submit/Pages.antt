-- ===== src/Submit/Pages.antt =====
-- The pages of a request's list that are mapped for the device, and those that are unmapped.
use qdmav.Prelude.{
  ℕ, ◌+◌, ◌-◌, ◌%◌, ◌^◌, ◌<◌, ◌≡◌, ◌≢◌, refl, ap, arith, true, false, not, List, [], ◌∷◌, add64,
  u64_mod, ◌==◌, if◌then◌else◌, All, Bool-cases, inl, inr,
}
use qdmav.Prelude.Errors.{Result}
use qdmav.Request.{SwSg}
use qdmav.Submit.{Mapping, mapped, bad, map_one, map_entry, sgl_map, sgl_unmap}

-- An entry as the caller hands it over.
abbrev pub IsUnmapped : SwSg → Type 0
IsUnmapped sg = (sg.has_pg ≡ true) × (sg.dma_addr ≡ 0) × (sg.offset < 2 ^ 64)

-- An address of a page whose bytes from the entry's offset on do not begin at 0.
abbrev pub Fits : Mapping → SwSg → Type 0
Fits (mapped a) sg = (a < 2 ^ 64) × (add64 a sg.offset ≢ 0)
Fits (bad a) sg = a < 2 ^ 64

abbrev pub AllFit : (ℕ → Mapping) → ℕ → List SwSg → Type 0
AllFit map_page i [] = Unit
AllFit map_page i (sg ∷ sgl) = Fits (map_page i) sg × AllFit map_page (i + 1) sgl

-- What `sgl_unmap` finds: every page that was mapped, and after a failure also the value that stands
-- for it, unless that is 0.
unfoldable pub found : Mapping → SwSg → List ℕ → List ℕ
found (mapped a) sg rest = a ∷ rest
found (bad a) sg rest = if a == 0 then [] else (a + u64_mod - sg.offset) % u64_mod ∷ []

unfoldable pub pages : (ℕ → Mapping) → ℕ → List SwSg → List ℕ
pages map_page i [] = []
pages map_page i (sg ∷ sgl) = found (map_page i) sg (pages map_page (i + 1) sgl)

unmap_unmapped : (sgl : List SwSg) → All IsUnmapped sgl → (sgl_unmap sgl).1 ≡ []
unfolding sgl_unmap
unmap_unmapped [] h = refl
unmap_unmapped (sg ∷ sgl) ((p, z, o), h) = ground (arith, unmap_unmapped sgl h)

unmap_twice : (sgl : List SwSg) → (sgl_unmap (sgl_unmap sgl).0).1 ≡ []
unfolding sgl_unmap
unmap_twice [] = refl
unmap_twice (sg ∷ sgl) = elim (Bool-cases (not sg.has_pg)) [
  | inl e ↦ rw (e, e) refl
  | inr e ↦ elim (Bool-cases (sg.dma_addr == 0)) [
    | inl z ↦ rw (e, z, e, z) (unmap_twice sgl)
    | inr z ↦ rw (e, z, e) (unmap_twice sgl)
  ]
]

-- The first entry, by the answer for its page.
first_page :
    (m : Mapping) (sg : SwSg) (sgl : List SwSg) (r : Result ℕ × List SwSg) (l : List ℕ)
    → sg.has_pg ≡ true
    → sg.offset < 2 ^ 64
    → Fits m sg
    → (sgl_unmap r.1).1 ≡ l
    → (sgl_unmap sgl).1 ≡ []
    → (sgl_unmap (map_entry m sg sgl r).1).1 ≡ found m sg l
unfolding map_entry map_one found sgl_unmap
first_page (mapped a) sg sgl r l p o (w, f) h n =
    let set_addr : (add64 a sg.offset == 0) ≡ false = ground arith in
    let page : (add64 a sg.offset + u64_mod - sg.offset) % u64_mod ≡ a = omega arith in
    rw (p, set_addr, page) (ap (λ t. a ∷ t) h)
first_page (bad a) sg sgl r l p o f h n = elim (Bool-cases (a == 0)) [
  | inl zero_value ↦ rw (p, zero_value) n
  | inr other ↦ rw (p, other) (ap (λ t. (a + u64_mod - sg.offset) % u64_mod ∷ t) n)
]

map_unmapped :
    (map_page : ℕ → Mapping) (i : ℕ) (sgl : List SwSg)
    → All IsUnmapped sgl
    → AllFit map_page i sgl
    → (sgl_unmap (sgl_map map_page i sgl).1).1 ≡ pages map_page i sgl
unfolding sgl_map sgl_unmap pages
map_unmapped map_page i [] u f = refl
map_unmapped map_page i (sg ∷ sgl) ((p, z, o), u) (g, f) =
    first_page (map_page i) sg sgl (sgl_map map_page (i + 1) sgl) (pages map_page (i + 1) sgl) p o g
      (map_unmapped map_page (i + 1) sgl u f) (unmap_unmapped sgl u)

-- Unmapping after `sgl_map`, which succeeded or failed, unmaps each page that was mapped, in order;
-- after a failure whose value is not 0 it also unmaps an address that was never mapped. A second
-- call unmaps nothing.
pub sgl_map-pages :
    (map_page : ℕ → Mapping) (i : ℕ) (sgl : List SwSg)
    → All IsUnmapped sgl
    → AllFit map_page i sgl
    → let (rv, l) = sgl_map map_page i sgl in
      ((sgl_unmap l).1 ≡ pages map_page i sgl) × ((sgl_unmap (sgl_unmap l).0).1 ≡ [])
sgl_map-pages map_page i sgl u f =
    (map_unmapped map_page i sgl u f, unmap_twice (sgl_map map_page i sgl).1)
