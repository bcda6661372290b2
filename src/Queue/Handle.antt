-- ===== src/Queue/Handle.antt =====
-- The handle that `qdma_queue_add` returns, and the count of queues.
use qdmav.Prelude.{
  ℕ, zero, suc, ◌+◌, ◌-◌, ◌^◌, ◌<◌, ◌≡◌, inl, inr, refl, sym, ap, ◌∙◌, Bool, true, false, List, [],
  ◌∷◌, Option, none, some, arith, if◌then◌else◌, get_elem?, modify, length, get_elem?-modify,
}
use qdmav.Prelude.Errors.{Error, Result, ok, err, Result-cases}
use qdmav.Descq.{QueueConf, Descq}
use qdmav.Device.{
  Qdev, Xdev, side, set_side, descq_at, modify_at, emit_dev, device_set_qrange,
  qdma_device_get_descq_by_id, qdma_device_prep_q_resource,
}
use qdmav.Queue.{
  choose, enable, qcnt_inc, qcnt_dec, set_qcnt, add_counted, qdma_queue_add, qdma_descq_config,
  qcnt,
}
use qdmav.Queue.Choose.{IsFree, choose-IsFree}

get_elem?_lt {ℓ} :
    {A : Type ℓ} (xs : List A) (i : ℕ) {a : A} → get_elem? xs i ≡ some a → i < length xs
get_elem?_lt [] i h = cc
get_elem?_lt (x ∷ xs) zero h = omega arith
get_elem?_lt (x ∷ xs) (suc i) h = omega (arith, get_elem?_lt xs i h)

length-modify {ℓ} :
    {A : Type ℓ} (i : ℕ) (f : A → A) (xs : List A) → length (modify i f xs) ≡ length xs
length-modify i f [] = refl
length-modify zero f (x ∷ xs) = refl
length-modify (suc i) f (x ∷ xs) = ap suc (length-modify i f xs)

-- Both arrays have `qmax` queues.
pub record IsSized (d : Qdev) : Type 0 where
  pub h2c : length d.h2c_descq ≡ d.qmax
  pub c2h : length d.c2h_descq ≡ d.qmax

-- What the preparation of the function leaves as it is.
pub record Kept (d d' : Qdev) : Type 0 where
  pub qmax : d'.qmax ≡ d.qmax
  pub h2c_descq : d'.h2c_descq ≡ d.h2c_descq
  pub c2h_descq : d'.c2h_descq ≡ d.c2h_descq
  pub h2c_qcnt : d'.h2c_qcnt ≡ d.h2c_qcnt
  pub c2h_qcnt : d'.c2h_qcnt ≡ d.c2h_qcnt

pub prep-Kept :
    (intr_ring intr_context : Result ℕ) (x : Xdev)
    → Kept x.qdev (qdma_device_prep_q_resource intr_ring intr_context x).1.qdev
unfolding qdma_device_prep_q_resource device_set_qrange emit_dev
prep-Kept intr_ring intr_context x = record {
  qmax = ground arith;
  h2c_descq = ground arith;
  c2h_descq = ground arith;
  h2c_qcnt = ground arith;
  c2h_qcnt = ground arith;
}

-- The three ways through the counted part.
abbrev added : (Xdev → Result ℕ × Xdev) → QueueConf → Xdev → ℕ → Result ℕ × Xdev
added prep qconf x i = prep (modify_at (qconf.c2h, i) enable (qcnt_inc qconf.c2h x))

abbrev with_idx : QueueConf → ℕ → QueueConf
with_idx qconf i = record qconf { qidx = i }

add_counted-ok :
    (prep : Xdev → Result ℕ × Xdev) (cut : Bool) (qconf : QueueConf) (x : Xdev) {h : ℕ}
    → (add_counted prep cut qconf x).0 ≡ ok h
    → (i : ℕ) × (choose qconf (qcnt_inc qconf.c2h x).qdev ≡ ok i)
      × let x2 = (added prep qconf x i).1 in
        (h ≡ (if qconf.c2h then i + x2.qdev.qmax else i))
        × ((add_counted prep cut qconf x).1
            ≡ modify_at (qconf.c2h, i) (qdma_descq_config x2.num_vecs (with_idx qconf i) false) x2)
        × ((add_counted prep cut qconf x).2 ≡ with_idx qconf i)
unfolding add_counted
add_counted-ok prep cut qconf x {h} e =
    elim (Result-cases (choose qconf (qcnt_inc qconf.c2h x).qdev)) [
      | inr (er, c) ↦ absurd (not_ok (rw (add_counted, c) at e))
      | inl (i, c) ↦ elim (Result-cases (added prep qconf x i).0) [
        | inr (er, p) ↦ absurd (not_ok (rw (add_counted, c, p) at e))
        | inl (v, p) ↦ (
          i,
          c,
          (
            ok_eq (rw (add_counted, c, p) at (sym e)),
            rw (add_counted, c, p) refl,
            rw (add_counted, c, p) refl,
          ),
        )
      ]
    ]
  where
    not_ok : {er : Error} {n : ℕ} → ¬ (err er ≡ ok n)
    not_ok f = cc

    ok_eq : {a b : ℕ} → ok a ≡ ok b → a ≡ b
    ok_eq f = cc

queue_add-ok :
    (prep : Xdev → Result ℕ × Xdev) (cut : Bool) (qconf : QueueConf) (x : Xdev) {h : ℕ}
    → (qdma_queue_add prep cut qconf x).0 ≡ ok h
    → qdma_queue_add prep cut qconf x ≡ add_counted prep cut qconf x
unfolding qdma_queue_add
queue_add-ok prep cut qconf x {h} e = ground arith

side_lt :
    (d : Qdev) (c2h : Bool) (i : ℕ) {q : Descq}
    → IsSized d
    → get_elem? (side d c2h) i ≡ some q
    → i < d.qmax
unfolding side
side_lt d true i z e = omega (arith, get_elem?_lt d.c2h_descq i e, z.c2h)
side_lt d false i z e = omega (arith, get_elem?_lt d.h2c_descq i e, z.h2c)

Kept-side : {d d' : Qdev} (c2h : Bool) → Kept d d' → side d' c2h ≡ side d c2h
unfolding side
Kept-side true k = k.c2h_descq
Kept-side false k = k.h2c_descq

side-modify_at :
    (c2h : Bool) (i : ℕ) (f : Descq → Descq) (x : Xdev)
    → (side (modify_at (c2h, i) f x).qdev c2h ≡ modify i f (side x.qdev c2h))
      × ((modify_at (c2h, i) f x).qdev.qmax ≡ x.qdev.qmax)
unfolding side set_side modify_at
side-modify_at true i f x = (refl, refl)
side-modify_at false i f x = (refl, refl)

side-qcnt_inc :
    (c2h b : Bool) (x : Xdev)
    → (side (qcnt_inc c2h x).qdev b ≡ side x.qdev b) × ((qcnt_inc c2h x).qdev.qmax ≡ x.qdev.qmax)
unfolding qcnt_inc set_qcnt side
side-qcnt_inc true true x = (refl, refl)
side-qcnt_inc true false x = (refl, refl)
side-qcnt_inc false true x = (refl, refl)
side-qcnt_inc false false x = (refl, refl)

free_queue :
    (st : Bool) (q p : Option Descq)
    → IsFree st q p
    → (a : Descq) × (q ≡ some a) × (a.enabled ≡ false)
free_queue st (some q) (some p) f = (q, refl, f.0)
free_queue st (some q) none f = absurd f
free_queue st none p f = absurd f

get_descq_by_id-position :
    (x : Xdev) (c2h : Bool) (i : ℕ) (q : Descq)
    → i < x.qdev.qmax
    → get_elem? (side x.qdev c2h) i ≡ some q
    → q.enabled ≡ true
    → qdma_device_get_descq_by_id (some x) (if c2h then i + x.qdev.qmax else i) true ≡ some (c2h, i)
unfolding qdma_device_get_descq_by_id descq_at
get_descq_by_id-position x true i q l g e =
    let n : i + x.qdev.qmax - x.qdev.qmax ≡ i = omega arith in ground arith
get_descq_by_id-position x false i q l g e = ground arith

-- The handle leads to a queue that was free and now has the configuration.
abbrev pub Placed : QueueConf → Xdev → ℕ → Xdev → QueueConf → Type 0
Placed qconf x h x' qconf' =
    (qdma_device_get_descq_by_id (some x') h true ≡ some (qconf.c2h, qconf'.qidx))
    × ((q : Descq) × (get_elem? (side x.qdev qconf.c2h) qconf'.qidx ≡ some q)
        × (q.enabled ≡ false)
        × (get_elem? (side x'.qdev qconf.c2h) qconf'.qidx
            ≡ some (record q { enabled = true; conf = qconf' })))

same-Placed :
    (qconf : QueueConf) (x : Xdev) {h h1 : ℕ} {x' x1 : Xdev} {c c1 : QueueConf}
    → h ≡ h1
    → x' ≡ x1
    → c ≡ c1
    → Placed qconf x h1 x1 c1
    → Placed qconf x h x' c
same-Placed qconf x eh ex ec p = rw (eh, ex, ec) p

chosen-Placed :
    (intr_ring intr_context : Result ℕ) (qconf : QueueConf) (x : Xdev) (i : ℕ)
    → let x2 = (added (qdma_device_prep_q_resource intr_ring intr_context) qconf x i).1 in
      IsSized x.qdev
      → choose qconf (qcnt_inc qconf.c2h x).qdev ≡ ok i
      → Placed qconf x
          (if qconf.c2h then i + x2.qdev.qmax else i)
          (modify_at (qconf.c2h, i) (qdma_descq_config x2.num_vecs (with_idx qconf i) false) x2)
          (with_idx qconf i)
unfolding qdma_descq_config enable
chosen-Placed intr_ring intr_context qconf x i z c =
    let b = qconf.c2h in
    let x0 = qcnt_inc b x in
    let x1 = modify_at (b, i) enable x0 in
    let x2 = (added (qdma_device_prep_q_resource intr_ring intr_context) qconf x i).1 in
    let config = qdma_descq_config x2.num_vecs (with_idx qconf i) false in
    let x3 = modify_at (b, i) config x2 in
    let k : Kept x1.qdev x2.qdev = prep-Kept intr_ring intr_context x1 in
    let (s0, m0) = side-qcnt_inc b b x in
    let (s1, m1) = side-modify_at b i enable x0 in
    let (s3, m3) = side-modify_at b i config x2 in
    let (q, g, f) = free_queue qconf.st _ _ (choose-IsFree qconf x0.qdev c) in
    let g0 : get_elem? (side x.qdev b) i ≡ some q = rw s0 at g in
    let g1 : get_elem? (side x1.qdev b) i ≡ some (enable q) =
      rw s1 (get_elem?-modify i enable (side x0.qdev b) g) in
    let g2 : get_elem? (side x2.qdev b) i ≡ some (enable q) = rw (Kept-side b k) g1 in
    let l : i < x2.qdev.qmax = rw (k.qmax, m1, m0) (side_lt x.qdev b i z g0) in
    let l3 : i < x3.qdev.qmax = rw m3 l in
    let g4 : get_elem? (side x3.qdev b) i ≡ some (config (enable q)) =
      rw s3 (get_elem?-modify i config (side x2.qdev b) g2) in
    (
      ap (λ n. qdma_device_get_descq_by_id (some x3) (if b then i + n else i) true) (sym m3)
          ∙ get_descq_by_id-position x3 b i (config (enable q)) l3 g4 refl,
      (q, g0, f, g4),
    )

-- The handle of a successful call leads back to a queue that was free and that is now enabled with
-- the caller's configuration, under the index that the call stored in it.
pub queue_add_handle :
    (intr_ring intr_context : Result ℕ) (cut : Bool) (qconf : QueueConf) (x : Xdev) {h : ℕ}
    → let prep = qdma_device_prep_q_resource intr_ring intr_context in
      let (rv, x', qconf') = qdma_queue_add prep cut qconf x in
      IsSized x.qdev → rv ≡ ok h → Placed qconf x h x' qconf'
queue_add_handle intr_ring intr_context cut qconf x {h} z e =
    let prep = qdma_device_prep_q_resource intr_ring intr_context in
    let whole = queue_add-ok prep cut qconf x e in
    let (i, c, (eh, ex, ec)) = add_counted-ok prep cut qconf x (rw whole at e) in
    same-Placed qconf x eh (ap (λ r. r.1) whole ∙ ex) (ap (λ r. r.2) whole ∙ ec)
      (chosen-Placed intr_ring intr_context qconf x i z c)

add_counted-err :
    (prep : Xdev → Result ℕ × Xdev) (cut : Bool) (qconf : QueueConf) (x : Xdev) (i : ℕ) {er : Error}
    → choose qconf (qcnt_inc qconf.c2h x).qdev ≡ ok i
    → (added prep qconf x i).0 ≡ err er
    → add_counted prep cut qconf x
      ≡ (err er, qcnt_dec qconf.c2h (added prep qconf x i).1, with_idx qconf i)
unfolding add_counted
add_counted-err prep cut qconf x i c p = rw (add_counted, c, p) refl

prep_err :
    (intr_context : Result ℕ) (x : Xdev) (er : Error)
    → x.qdev.init_qrange ≡ false
    → (qdma_device_prep_q_resource (err er) intr_context x).0 ≡ err er
unfolding qdma_device_prep_q_resource
prep_err intr_context x er h = rw h refl

init_qrange-added :
    (c2h : Bool) (i : ℕ) (f : Descq → Descq) (x : Xdev)
    → (modify_at (c2h, i) f (qcnt_inc c2h x)).qdev.init_qrange ≡ x.qdev.init_qrange
unfolding modify_at set_side qcnt_inc set_qcnt
init_qrange-added true i f x = refl
init_qrange-added false i f x = refl

side-qcnt_dec : (c2h : Bool) (x : Xdev) → side (qcnt_dec c2h x).qdev c2h ≡ side x.qdev c2h
unfolding qcnt_dec set_qcnt side
side-qcnt_dec true x = refl
side-qcnt_dec false x = refl

qcnt_rewound :
    (c2h : Bool) (i : ℕ) (f : Descq → Descq) (x x2 : Xdev)
    → qcnt x.qdev c2h < 2 ^ 16
    → Kept (modify_at (c2h, i) f (qcnt_inc c2h x)).qdev x2.qdev
    → qcnt (qcnt_dec c2h x2).qdev c2h ≡ qcnt x.qdev c2h
unfolding qcnt qcnt_dec qcnt_inc set_qcnt modify_at set_side
qcnt_rewound true i f x x2 h k = omega (arith, k.c2h_qcnt)
qcnt_rewound false i f x x2 h k = omega (arith, k.h2c_qcnt)

-- Where the interrupt rings cannot be set up, the call fails and takes the count of queues back, but
-- the queue that it chose, which was not in use, is left enabled.
pub failed_prep_leaks :
    (intr_context : Result ℕ) (cut : Bool) (qconf : QueueConf) (x : Xdev) (i : ℕ) (er : Error)
    → let prep = qdma_device_prep_q_resource (err er) intr_context in
      let (rv, x', qconf') = add_counted prep cut qconf x in
      choose qconf (qcnt_inc qconf.c2h x).qdev ≡ ok i
      → x.qdev.init_qrange ≡ false
      → qcnt x.qdev qconf.c2h < 2 ^ 16
      → (rv ≡ err er)
        × (qcnt x'.qdev qconf.c2h ≡ qcnt x.qdev qconf.c2h)
        × ((q : Descq) × (get_elem? (side x.qdev qconf.c2h) i ≡ some q)
            × (q.enabled ≡ false)
            × (get_elem? (side x'.qdev qconf.c2h) i ≡ some (enable q)))
failed_prep_leaks intr_context cut qconf x i er c u l =
    let prep = qdma_device_prep_q_resource (err er) intr_context in
    let b = qconf.c2h in
    let x0 = qcnt_inc b x in
    let x1 = modify_at (b, i) enable x0 in
    let x2 = (added prep qconf x i).1 in
    let whole =
      add_counted-err prep cut qconf x i c
        (prep_err intr_context x1 er (init_qrange-added b i enable x ∙ u)) in
    let k : Kept x1.qdev x2.qdev = prep-Kept (err er) intr_context x1 in
    let (q, g, f) = free_queue qconf.st _ _ (choose-IsFree qconf x0.qdev c) in
    let g0 : get_elem? (side x.qdev b) i ≡ some q = rw (side-qcnt_inc b b x).0 at g in
    let g1 : get_elem? (side x1.qdev b) i ≡ some (enable q) =
      rw (side-modify_at b i enable x0).0 (get_elem?-modify i enable (side x0.qdev b) g) in
    let g2 : get_elem? (side (qcnt_dec b x2).qdev b) i ≡ some (enable q) =
      rw (side-qcnt_dec b x2, Kept-side b k) g1 in
    rw whole (refl, qcnt_rewound b i enable x x2 l k, (q, g0, f, g2))
