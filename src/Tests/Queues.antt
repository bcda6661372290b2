-- ===== src/Tests/Queues.antt =====
-- Queues of a concrete device.
use qdmav.Prelude.{ℕ, ◌<◌, ◌≡◌, ◌⊎◌, refl, arith, true, false, not, [], ◌∷◌, some, get_elem?, ◌^◌}
use qdmav.Prelude.Errors.{enomem, descq_full, ok, err}
use qdmav.Descq.{QueueConf, Descq}
use qdmav.Device.{
  Qdev, Xdev, side, set_side, modify_at, qdma_device_prep_q_resource, device_set_qrange, emit_dev,
}
use qdmav.Queue.{
  qidx_any, choose, find_free, pair_differs, enable, qcnt, qcnt_inc, set_qcnt, add_counted,
  qdma_queue_add,
}
use qdmav.Queue.Choose.{IsFree, IsFirst, choose_any}
use qdmav.Queue.Handle.{Placed, IsSized, queue_add_handle, failed_prep_leaks}
use qdmav.Tests.{conf, queue}

abbrev idle : Descq
idle = record queue { enabled = false }

abbrev pub qdev : Qdev
qdev = record {
  init_qrange = false;
  qmax = 2;
  qbase = 32;
  h2c_qcnt = 1;
  c2h_qcnt = 0;
  h2c_descq = queue ∷ idle ∷ [];
  c2h_descq = idle ∷ idle ∷ [];
}

abbrev pub xdev : Xdev
xdev = record {
  qdev = qdev;
  func_id = 0;
  st_mode_en = true;
  mm_mode_en = true;
  intr_coal_en = false;
  poll_mode = false;
  master_pf = true;
  isr_top_q_en = false;
  num_vecs = 4;
  dvec_start_idx = 2;
  intr_list_cnt = 0 ∷ 0 ∷ [];
  events = [];
}

abbrev any_conf : QueueConf
any_conf = record conf { qidx = qidx_any }

choose_any_example :
    ((i : ℕ) × (choose any_conf qdev ≡ ok i)
      × IsFirst any_conf.st (side qdev any_conf.c2h) (side qdev (not any_conf.c2h)) i)
    ⊎ ((choose any_conf qdev ≡ err descq_full)
        × ((m : ℕ)
            → ¬ IsFree any_conf.st
                (get_elem? (side qdev any_conf.c2h) m)
                (get_elem? (side qdev (not any_conf.c2h)) m)))
choose_any_example = choose_any any_conf qdev refl

chosen : choose any_conf qdev ≡ ok 1
unfolding choose find_free pair_differs side
chosen = refl

qdev-IsSized : IsSized qdev
qdev-IsSized = record { h2c = refl; c2h = refl }

added_ok : (qdma_queue_add (qdma_device_prep_q_resource (ok 0) (ok 0)) false any_conf xdev).0 ≡ ok 1
unfolding qdma_queue_add qcnt add_counted qcnt_inc set_qcnt choose find_free pair_differs side
    modify_at set_side qdma_device_prep_q_resource device_set_qrange emit_dev
added_ok = refl

queue_add_handle_example :
    let prep = qdma_device_prep_q_resource (ok 0) (ok 0) in
    let (rv, x', qconf') = qdma_queue_add prep false any_conf xdev in
    Placed any_conf xdev 1 x' qconf'
queue_add_handle_example = queue_add_handle (ok 0) (ok 0) false any_conf xdev qdev-IsSized added_ok

chosen_counted : choose any_conf (qcnt_inc any_conf.c2h xdev).qdev ≡ ok 1
unfolding choose find_free pair_differs side qcnt_inc set_qcnt
chosen_counted = refl

few : qcnt xdev.qdev any_conf.c2h < 2 ^ 16
unfolding qcnt
few = omega arith

failed_prep_leaks_example :
    let prep = qdma_device_prep_q_resource (err enomem) (ok 0) in
    let (rv, x', qconf') = add_counted prep false any_conf xdev in
    (rv ≡ err enomem)
    × (qcnt x'.qdev any_conf.c2h ≡ qcnt xdev.qdev any_conf.c2h)
    × ((q : Descq) × (get_elem? (side xdev.qdev any_conf.c2h) 1 ≡ some q)
        × (q.enabled ≡ false)
        × (get_elem? (side x'.qdev any_conf.c2h) 1 ≡ some (enable q)))
failed_prep_leaks_example =
    failed_prep_leaks (ok 0) false any_conf xdev 1 enomem chosen_counted refl few
