-- ===== src/Writeback/Laws.antt =====
-- Credit: no descriptor that the device has done is lost, and requests complete in order.
use qdmav.Prelude.{
  ℕ, suc, ◌+◌, ◌-◌, ◌^◌, ◌≤◌, ◌<◌, ◌≡◌, ◌⊎◌, inl, inr, refl, sym, ap, ◌∙◌, false, List, [], ◌∷◌,
  arith, add32, leb, ◌==◌, drop, take, map, Bool-cases,
}
use qdmav.Request.{Request}
use qdmav.Descq.{Descq, emit, list_del, update}
use qdmav.Writeback.{qdma_sgt_req_done, req_update_from, req_update_pend}

-- The descriptors of some requests that the device has not yet done.
abbrev pub outstanding : List Request → ℕ
outstanding [] = 0
outstanding (cb ∷ cbs) = cb.desc_nr + outstanding cbs

-- Requests of which `n` descriptors of the first are done.
abbrev pub less : ℕ → List Request → List Request
less n [] = []
less n (cb ∷ cbs) = record cb { desc_nr = cb.desc_nr - n } ∷ cbs

-- Credit that pays for none of the requests: it is used up, or too little for the first.
abbrev pub PaysNone : ℕ → List Request → Type 0
PaysNone n [] = Unit
PaysNone n (cb ∷ cbs) = (n ≡ 0) ⊎ (n < cb.desc_nr)

-- What the completion of requests with `credit` leaves.
pub record Settled (pend : List Request) (credit : ℕ) (credit' : ℕ) (q q' : Descq) : Type 0 where
  pub conserved : credit' + outstanding pend ≡ credit + outstanding q'.pend_list
  pub spent : (credit' ≡ 0) ⊎ (q'.pend_list ≡ [])
  pub first : ℕ
  pub in_order : map (λ r. r.id) q'.pend_list ≡ map (λ r. r.id) (drop first pend)
  pub paid : outstanding (take first pend) ≤ credit
  pub rest : q'.pend_list ≡ less (credit - outstanding (take first pend)) (drop first pend)
  pub most : PaysNone (credit - outstanding (take first pend)) (drop first pend)
  pub ring : (q'.avail ≡ q.avail) × (q'.pidx ≡ q.pidx) × (q'.cidx ≡ q.cidx) × (q'.conf ≡ q.conf)

done_pend :
    (q : Descq) (cb : Request) (cbs : List Request)
    → q.pend_list ≡ cb ∷ cbs
    → let q' = (qdma_sgt_req_done q cb false).0 in
      (q'.pend_list ≡ cbs)
      × (q'.avail ≡ q.avail)
      × (q'.pidx ≡ q.pidx)
      × (q'.cidx ≡ q.cidx)
      × (q'.conf ≡ q.conf)
unfolding qdma_sgt_req_done emit list_del
done_pend q cb cbs e = (ground (arith, del), ground arith, ground arith, ground arith, ground arith)
  where
    del : list_del cb.id q.pend_list ≡ cbs
    del = rw e (ground arith)

less-zero : (n : ℕ) (cbs : List Request) → n ≡ 0 → less n cbs ≡ cbs
less-zero n [] h = refl
less-zero n (cb ∷ cbs) h = let e : cb.desc_nr - n ≡ cb.desc_nr = omega arith in rw e refl

pays_zero : (n : ℕ) (cbs : List Request) → n ≡ 0 → PaysNone n cbs
pays_zero n [] h = tt
pays_zero n (cb ∷ cbs) h = inl h

Settled-all :
    (cb : Request) (cbs : List Request) (credit : ℕ) (q q' : Descq)
    → credit ≡ cb.desc_nr
    → q'.pend_list ≡ cbs
    → (q'.avail ≡ q.avail) × (q'.pidx ≡ q.pidx) × (q'.cidx ≡ q.cidx) × (q'.conf ≡ q.conf)
    → Settled (cb ∷ cbs) credit 0 q q'
Settled-all cb cbs credit q q' h e k = record {
  conserved = omega (arith, ap outstanding e);
  spent = inl refl;
  first = 1;
  in_order = rw e;
  paid = omega arith;
  rest = e ∙ sym (less-zero (credit - (cb.desc_nr + 0)) cbs (omega arith));
  most = pays_zero (credit - (cb.desc_nr + 0)) cbs (omega arith);
  ring = k;
}

Settled-next :
    (cb : Request) (cbs : List Request) (credit credit' : ℕ) (q p q' : Descq)
    → cb.desc_nr ≤ credit
    → (p.avail ≡ q.avail) × (p.pidx ≡ q.pidx) × (p.cidx ≡ q.cidx) × (p.conf ≡ q.conf)
    → Settled cbs (credit - cb.desc_nr) credit' p q'
    → Settled (cb ∷ cbs) credit credit' q q'
Settled-next cb cbs credit credit' q p q' h k s = record {
  conserved = omega (arith, s.conserved);
  spent = s.spent;
  first = suc s.first;
  in_order = s.in_order;
  paid = omega (arith, s.paid);
  rest = s.rest ∙ ap (λ n. less n (drop s.first cbs)) (sym (split s.first));
  most = rw (split s.first) s.most;
  ring = (s.ring.0 ∙ k.0, s.ring.1 ∙ k.1, s.ring.2 ∙ k.2, s.ring.3 ∙ k.3);
}
  where
    split :
        (n : ℕ)
        → credit - (cb.desc_nr + outstanding (take n cbs))
          ≡ credit - cb.desc_nr - outstanding (take n cbs)
    split n = omega arith

Settled-part :
    (cb : Request) (cbs : List Request) (credit : ℕ) (q q' : Descq)
    → credit < cb.desc_nr
    → q'.pend_list ≡ record cb { desc_nr = cb.desc_nr - credit } ∷ cbs
    → (q'.avail ≡ q.avail) × (q'.pidx ≡ q.pidx) × (q'.cidx ≡ q.cidx) × (q'.conf ≡ q.conf)
    → Settled (cb ∷ cbs) credit 0 q q'
Settled-part cb cbs credit q q' h e k = record {
  conserved = omega (arith, ap outstanding e);
  spent = inl refl;
  first = 0;
  in_order = rw e;
  paid = omega arith;
  rest = let z : credit - 0 ≡ credit = omega arith in rw z e;
  most = inr (omega (arith, h));
  ring = k;
}

update_head :
    (cb : Request) (n : ℕ) (cbs pend : List Request)
    → pend ≡ cb ∷ cbs
    → update (record cb { desc_nr = n }) pend ≡ record cb { desc_nr = n } ∷ cbs
unfolding update
update_head cb n cbs pend e = rw e (ground arith)

-- The three ways in which the loop goes on from its first request.
pub req_update_from_step :
    (cb : Request) (cbs : List Request) (credit : ℕ) (q : Descq)
    → let q1 = (qdma_sgt_req_done q cb false).0 in
      let q2 = record q {
        pend_list = update (record cb { desc_nr = cb.desc_nr - credit }) q.pend_list;
      } in
      let r = req_update_from (cb ∷ cbs) credit q in
      ((credit ≡ cb.desc_nr) × (r ≡ (0, q1)))
      ⊎ ((cb.desc_nr ≤ credit) × (r ≡ req_update_from cbs (credit - cb.desc_nr) q1)
          ⊎ (credit < cb.desc_nr) × (r ≡ (0, q2)))
unfolding req_update_from
req_update_from_step cb cbs credit q = elim (Bool-cases (leb cb.desc_nr credit)) [
  | inl le ↦ elim (Bool-cases (credit - cb.desc_nr == 0)) [
    | inl z ↦ inl (ground arith, rw (le, z))
    | inr nz ↦ inr (inl (ground arith, rw (le, nz)))
  ]
  | inr gt ↦ inr (inr (ground arith, rw gt))
]

req_update_from-Settled :
    (pend : List Request) (credit : ℕ) (q : Descq)
    → q.pend_list ≡ pend
    → let (credit', q') = req_update_from pend credit q in Settled pend credit credit' q q'
unfolding req_update_from
req_update_from-Settled [] credit q e = record {
  conserved = omega (arith, ap outstanding e);
  spent = inr e;
  first = 0;
  in_order = rw e;
  paid = omega arith;
  rest = e;
  most = tt;
  ring = (refl, refl, refl, refl);
}
req_update_from-Settled (cb ∷ cbs) credit q e =
    let q1 = (qdma_sgt_req_done q cb false).0 in
    let (p, k0, k1, k2, k3) = done_pend q cb cbs e in
    let r = req_update_from (cb ∷ cbs) credit q in
    elim (req_update_from_step cb cbs credit q) [
      | inl (h, eq) ↦ rw eq (Settled-all cb cbs credit q q1 h p (k0, k1, k2, k3))
      | inr (inl (h, eq)) ↦ rw eq (
          Settled-next cb cbs credit _ q q1 _ h (k0, k1, k2, k3)
            (req_update_from-Settled cbs (credit - cb.desc_nr) q1 p))
      | inr (inr (h, eq)) ↦ rw eq (
          Settled-part cb cbs credit q _ h (update_head cb (cb.desc_nr - credit) cbs q.pend_list e)
            (refl, refl, refl, refl))
    ]

-- Where the credit does not overflow, `n` more descriptors done are spent on the pending requests,
-- oldest first: as many requests from the front of the list complete as the credit pays for in full,
-- what remains of it is taken off the next one, and all behind that stay as they are. The credit that
-- is left and the descriptors still outstanding balance, credit stays only when no request does, and
-- the ring's indices stay.
pub req_update_pend-Settled :
    (q : Descq) (n : ℕ)
    → n + q.credit < 2 ^ 32
    → let q' = req_update_pend q n in Settled q.pend_list (n + q.credit) q'.credit q q'
unfolding req_update_pend
req_update_pend-Settled q n h =
    let e : add32 n q.credit ≡ n + q.credit = omega arith in
    let s = req_update_from-Settled q.pend_list (n + q.credit) q refl in
    rw e (record {
      conserved = s.conserved;
      spent = s.spent;
      first = s.first;
      in_order = s.in_order;
      paid = s.paid;
      rest = s.rest;
      most = s.most;
      ring = s.ring;
    })
