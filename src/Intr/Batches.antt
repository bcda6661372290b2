-- ===== src/Intr/Batches.antt =====
-- A sequence of interrupts of a function's first vector, between which the device posts entries.
use qdmav.Prelude.{
  ℕ, ◌-◌, ◌^◌, ◌≤◌, ◌<◌, ◌≡◌, refl, sym, ap, ◌∙◌, arith, true, false, List, [], ◌∷◌, ◌++◌,
  append_assoc, append-nil, map, Option, none, some, ◌==◌, length, All, modify,
}
use qdmav.Device.{Xdev, Position, modify_at, set_side}
use qdmav.Intr.{
  RingEntry, CoalConf, Work, note_cidx, update_at, finish, at_vector, after_loop,
  data_intr_aggregate,
}
use qdmav.Intr.Posted.{Writer, post, post_all, InLap, post_all-InLap}
use qdmav.Intr.Aggregate.{
  served, Sees, post_all-Sees, post_all_end, first_loop, end_idx, end_color, last_named,
}

-- The driver and the device at the same place of the ring.
pub record InSync (size : ℕ) (w : Writer) (c : CoalConf) : Type 0 where
  pub ring : c.ring ≡ w.ring
  pub index : c.cidx ≡ w.pidx
  pub colour : c.color ≡ w.color
  pub entries : c.intr_rng_num_entries ≡ size

unfoldable pub set_ring : Writer → List CoalConf → List CoalConf
set_ring w l = modify 0 (λ c. record c { ring = w.ring }) l

-- What has happened, with the work that was left to others.
pub record Line : Type 0 where
  pub writer : Writer
  pub xdev : Xdev
  pub coals : List CoalConf
  pub work : List Work

unfoldable pub resume_line :
    (Line → Option Line) → Line → Option (Xdev × List CoalConf × List Work) → Option Line
resume_line next s none = none
resume_line next s (some (x, coals, work)) =
    next (record s { xdev = x; coals = coals; work = s.work ++ work })

-- For each batch the device posts the entries and raises the interrupt.
unfoldable pub interrupts : ℕ → ℕ → ℕ → ℕ → List (List RingEntry) → Line → Option Line
interrupts fuel size vidx entry [] s = some s
interrupts fuel size vidx entry (es ∷ bs) s =
    let w = post_all size es s.writer in
    resume_line (interrupts fuel size vidx entry bs) (record s { writer = w })
      (data_intr_aggregate fuel s.xdev vidx entry (set_ring w s.coals))

unfoldable pub flatten {ℓ} : {A : Type ℓ} → List (List A) → List A
flatten [] = []
flatten (l ∷ ls) = l ++ flatten ls

update_at_rest :
    (d : Option Position) (c : Option CoalConf) (x : Xdev)
    → ((update_at d c x).qdev.qbase ≡ x.qdev.qbase)
      × ((update_at d c x).dvec_start_idx ≡ x.dvec_start_idx)
unfolding update_at modify_at set_side
update_at_rest none c x = (refl, refl)
update_at_rest (some pos) none x = (refl, refl)
update_at_rest (some (true, i)) (some c) x = (refl, refl)
update_at_rest (some (false, i)) (some c) x = (refl, refl)

map-append-flat :
    {A B : Type 0} (f : A → B) (xs ys : List A) → map f (xs ++ ys) ≡ map f xs ++ map f ys
map-append-flat f [] ys = refl
map-append-flat f (x ∷ xs) ys = ap (λ t. f x ∷ t) (map-append-flat f xs ys)

post_all-append :
    (size : ℕ) (es fs : List RingEntry) (w : Writer)
    → post_all size (es ++ fs) w ≡ post_all size fs (post_all size es w)
unfolding post_all
post_all-append size [] fs w = refl
post_all-append size (e ∷ es) fs w = post_all-append size es fs (post size e w)

module _ (fuel size vidx entry : ℕ) (rest : List CoalConf) (small : size < 2 ^ 32)
    (enough : size < fuel) where
  -- One interrupt.
  serve_batch :
      (es : List RingEntry) (w : Writer) (x : Xdev) (c : CoalConf)
      → length es ≤ size
      → InLap size w
      → InSync size w c
      → vidx ≡ x.dvec_start_idx
      → entry ≡ c.vec_id
      → let w' = post_all size es w in
        (x' : Xdev) × (c' : CoalConf) × (data_intr_aggregate fuel x vidx entry
            (set_ring w' (c ∷ rest))
          ≡ some (x', c' ∷ rest, map (served x.qdev.qbase) es))
        × InSync size w' c'
        × (x'.qdev.qbase ≡ x.qdev.qbase)
        × (x'.dvec_start_idx ≡ x.dvec_start_idx)
        × (c'.vec_id ≡ c.vec_id)
  unfolding data_intr_aggregate at_vector set_ring after_loop finish note_cidx
  serve_batch es w x c short v sync first vec =
      let w' = post_all size es w in
      let c1 : CoalConf = record c { ring = w'.ring } in
      let c' : CoalConf = record c1 {
        cidx = end_idx size es c.cidx;
        color = end_color size es c.cidx c.color;
      } in
      let d = last_named x.qdev.qbase es none in
      let z : vidx - x.dvec_start_idx ≡ 0 = omega arith in
      let same : (entry == c.vec_id) ≡ true = ground arith in
      let see : Sees size w'.ring c.cidx c.color es =
        rw (sync.index, sync.colour) (post_all-Sees size es w v short) in
      let inside : c.cidx < size = omega (arith, sync.index, v.inside) in
      let loop =
        first_loop x size rest small es fuel c1 none [] (omega arith) sync.entries inside see in
      let (ends, colours) = post_all_end size es w in
      let (qbase, start) = update_at_rest d (some c') x in
      (
        update_at d (some c') x,
        c',
        rw (z, same) (ap (finish 0 x) loop),
        record {
          ring = refl;
          index = rw sync.index (sym ends);
          colour = rw (sync.index, sync.colour) (sym colours);
          entries = sync.entries;
        },
        qbase,
        start,
        refl,
      )

  -- However what the device posts is spread over interrupts, with at most a ring of entries between
  -- two of them, every entry is served once and in order, and the driver stays with the device.
  pub interrupts_serve :
      (bs : List (List RingEntry)) (w : Writer) (x : Xdev) (c : CoalConf) (acc : List Work)
      → All (λ es. length es ≤ size) bs
      → InLap size w
      → InSync size w c
      → vidx ≡ x.dvec_start_idx
      → entry ≡ c.vec_id
      → (s : Line) × (interrupts fuel size vidx entry bs
            (record { writer = w; xdev = x; coals = c ∷ rest; work = acc })
          ≡ some s)
        × (s.work ≡ acc ++ map (served x.qdev.qbase) (flatten bs))
        × (s.writer ≡ post_all size (flatten bs) w)
        × ((c' : CoalConf) × (s.coals ≡ c' ∷ rest) × InSync size s.writer c')
  unfolding interrupts flatten resume_line post_all
  interrupts_serve [] w x c acc short v sync first vec = (
    record { writer = w; xdev = x; coals = c ∷ rest; work = acc },
    refl,
    sym (append-nil acc),
    refl,
    (c, refl, sync),
  )
  interrupts_serve (es ∷ bs) w x c acc short v sync first vec =
      let w' = post_all size es w in
      let (x', c', run, sync', qbase, start, vec') =
        serve_batch es w x c short.0 v sync first vec in
      let (s, done, work, writer, last) =
        interrupts_serve bs w' x' c' (acc ++ map (served x.qdev.qbase) es) short.1
          (post_all-InLap size es w v) sync' (first ∙ sym start) (vec ∙ sym vec') in
      (
        s,
        rw run done,
        work
            ∙ rw (qbase, append_assoc acc, map-append-flat (served x.qdev.qbase) es (flatten bs))
                refl,
        writer ∙ sym (post_all-append size es (flatten bs) w),
        last,
      )
