-- ===== src/Hw/Indirect.antt =====
-- The indirect context commands: `hw_indirect_ctext_prog` of libqdma/qdma_regs.c.
use qdmav.Prelude.{
  ℕ, ◌-◌, ◌<◌, ◌≤◌, ◌≡◌, ◌≢◌, ◌↔◌, false, replicate, ◌++◌, ◌⊎◌, inl, inr, refl, sym, ap, arith,
  Bool, true, ◌==◌, ◌||◌, Bool-cases, List, [], ◌∷◌, Option, none, some, take, ltb,
}
use qdmav.Prelude.Errors.{Error, einval, Result, ok, err}
use qdmav.Prelude.Io.{Io, resume}
use qdmav.Hw.{
  Hw, Op, Sel, wr, rd, same_words, compare_words, read_back, read_data, read_regs, write_regs,
  ctxt_mask_base, ctxt_data_base, command, write_masks, write_data, ctxt_reg_count,
  hw_indirect_ctext_prog,
}

-- A step that comes before a success succeeded.
resume_ok {ℓ κ μ} :
    {S : Type ℓ} {A : Type κ} {B : Type μ} (r : Result A × S) (f : A → Io S B) {b : B} {s' : S}
    → resume r f ≡ (ok b, s')
    → (a : A) × (t : S) × (r ≡ (ok a, t)) × (f a t ≡ (ok b, s'))
resume_ok (ok a, t) f e = (a, t, refl, e)
resume_ok (err x, t) f e = cc

same_words-eq : (xs ys : List ℕ) → same_words xs ys ≡ true → xs ≡ ys
unfolding same_words
same_words-eq [] [] h = refl
same_words-eq [] (y ∷ ys) h = cc
same_words-eq (x ∷ xs) [] h = cc
same_words-eq (x ∷ xs) (y ∷ ys) h = elim (Bool-cases (x == y)) [
  | inl e ↦
      let same : x ≡ y = ground arith in
      let rest = same_words-eq xs ys (rw e at h) in rw (same, rest) refl
  | inr e ↦ absurd (ground arith)
]

same_words_refl : (xs : List ℕ) → same_words xs xs ≡ true
unfolding same_words
same_words_refl [] = refl
same_words_refl (x ∷ xs) = let e : (x == x) ≡ true = ground arith in rw e (same_words_refl xs)

ok_err : {x : Error} {ws : List ℕ} → err x ≢ ok ws
ok_err e = cc

out_of_range :
    (cnt : ℕ) → (cnt ≡ 0) ⊎ (ctxt_reg_count < cnt) → (cnt == 0 || ltb ctxt_reg_count cnt) ≡ true
out_of_range cnt (inl h) = ground arith
out_of_range cnt (inr h) = ground arith

module _ {ℓ} {S : Type ℓ} (hw : Hw S) where
  compare_words_ok :
      (words got : List ℕ) (t : S) {r : List ℕ} {s' : S}
      → compare_words hw words got t ≡ (ok r, s')
      → (got ≡ words) × (t ≡ s')
  unfolding compare_words
  compare_words_ok words got t e = elim (Bool-cases (same_words words got)) [
    | inl h ↦ (sym (same_words-eq words got h), ap (λ p. p.1) (rw h at e))
    | inr h ↦ absurd (ok_err (ap (λ p. p.0) (rw h at e)))
  ]

  read_back_ok :
      (qid : ℕ) (sel : Sel) (words : List ℕ) (cnt : ℕ) (s : S) {r : List ℕ} {s' : S}
      → read_back hw qid sel words cnt s ≡ (ok r, s')
      → (v : ℕ) × (t : S) × (command hw qid rd sel s ≡ (ok v, t))
        × (read_regs hw ctxt_data_base cnt t ≡ (take cnt words, s'))
  unfolding read_back read_data
  read_back_ok qid sel words cnt s {r} {s'} e =
      let (u, t, c, e1) = resume_ok (command hw qid rd sel s) _ e in
      let got = read_regs hw ctxt_data_base cnt t in
      let (w, f) = compare_words_ok (take cnt words) got.0 got.1 e1 in (u, t, c, cc)

  compare_words_same : (words : List ℕ) (t : S) → compare_words hw words words t ≡ (ok [], t)
  unfolding compare_words
  compare_words_same words t = rw (same_words_refl words) refl

  read_back_verifies :
      (qid : ℕ) (sel : Sel) (words : List ℕ) (cnt v : ℕ) (s t s' : S)
      → command hw qid rd sel s ≡ (ok v, t)
      → read_regs hw ctxt_data_base cnt t ≡ (take cnt words, s')
      → read_back hw qid sel words cnt s ≡ (ok [], s')
  unfolding read_back read_data
  read_back_verifies qid sel words cnt v s t s' e r =
      rw (e, r) (compare_words_same (take cnt words) s')

  -- The device with the masks and the data registers written for `cnt` words.
  abbrev pub loaded : List ℕ → ℕ → S → S
  loaded words cnt s =
      write_regs hw ctxt_data_base (take cnt words ++ replicate (4 - cnt) 0)
        (write_regs hw ctxt_mask_base (replicate 4 0xffffffff) s)

  -- What a verified write of `cnt` words does to the device: the registers are loaded, the write command
  -- ends in time, and then the read command does; after it the data registers hold the words.
  pub record Verified (qid : ℕ) (sel : Sel) (words : List ℕ) (cnt : ℕ) (s s' : S) : Type ℓ where
    pub wrote_in : ℕ
    pub read_in : ℕ
    pub written : S
    pub shown : S
    pub wrote : command hw qid wr sel (loaded words cnt s) ≡ (ok wrote_in, written)
    pub asked : command hw qid rd sel written ≡ (ok read_in, shown)
    pub held : read_regs hw ctxt_data_base cnt shown ≡ (take cnt words, s')

  -- A write of one to four words with verification succeeds exactly where the device takes the write
  -- command and then the read command in time, with the masks and the words loaded, and its data
  -- registers hold the words after the read command, each as it was written.
  pub prog-Verified :
      (qid : ℕ) (sel : Sel) (words : List ℕ) (cnt : ℕ) (s s' : S)
      → 0 < cnt
      → cnt ≤ 4
      → (hw_indirect_ctext_prog hw qid wr sel (some words) cnt true s ≡ (ok [], s'))
        ↔ Verified qid sel words cnt s s'
  unfolding hw_indirect_ctext_prog write_masks write_data
  prog-Verified qid sel words cnt s s' low high =
      let fine : (cnt == 0 || ltb ctxt_reg_count cnt) ≡ false = ground arith in
      let begin = command hw qid wr sel (loaded words cnt s) in
      (
        λ e.
            (let (u, t1, e1, e2) =
                resume_ok begin (λ u. read_back hw qid sel words cnt) (rw fine at e) in
              let (v, t2, e3, h) = read_back_ok qid sel words cnt t1 e2 in
              record {
                wrote_in = u;
                read_in = v;
                written = t1;
                shown = t2;
                wrote = e1;
                asked = e3;
                held = h;
              }),
        λ k.
            rw (fine, k.wrote)
              (read_back_verifies qid sel words cnt k.read_in k.written k.shown s' k.asked k.held),
      )

  -- Reads and writes of no word, of more than four or through a null pointer are refused before
  -- the device is touched.
  pub prog-refused :
      (qid : ℕ) (op : Op) (sel : Sel) (words : Option (List ℕ)) (cnt : ℕ) (verify : Bool) (s : S)
      → (op ≡ wr) ⊎ (op ≡ rd)
      → (words ≡ none) ⊎ ((cnt ≡ 0) ⊎ (ctxt_reg_count < cnt))
      → hw_indirect_ctext_prog hw qid op sel words cnt verify s ≡ (err einval, s)
  unfolding hw_indirect_ctext_prog
  prog-refused qid op sel words cnt verify s (inl o) h = rw o (refused_wr words h)
    where
      refused_wr :
          (ws : Option (List ℕ))
          → (ws ≡ none) ⊎ ((cnt ≡ 0) ⊎ (ctxt_reg_count < cnt))
          → hw_indirect_ctext_prog hw qid wr sel ws cnt verify s ≡ (err einval, s)
      refused_wr none k = refl
      refused_wr (some ws) (inl k) = cc
      refused_wr (some ws) (inr k) = rw (out_of_range cnt k) refl
  prog-refused qid op sel words cnt verify s (inr o) h = rw o (refused_rd words h)
    where
      refused_rd :
          (ws : Option (List ℕ))
          → (ws ≡ none) ⊎ ((cnt ≡ 0) ⊎ (ctxt_reg_count < cnt))
          → hw_indirect_ctext_prog hw qid rd sel ws cnt verify s ≡ (err einval, s)
      refused_rd none k = refl
      refused_rd (some ws) (inl k) = cc
      refused_rd (some ws) (inr k) = rw (out_of_range cnt k) refl
