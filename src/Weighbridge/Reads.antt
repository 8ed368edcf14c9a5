-- ===== src/Weighbridge/Reads.antt =====
-- A sequence of reads of the simulator.
use timber_ops.Prelude.{
  ℕ, zero, suc, ◌+◌, ◌-◌, ◌≤◌, ◌<◌, ◌≡◌, refl, sym, ap, ◌∙◌, Bool, false, ltb, any, List, [], ◌∷◌,
  length, Bool-cases, inl, inr, if◌then◌else◌, arith,
}
use timber_ops.Domain.Errors.{ok, value_error, raise_if-eq-ok}
use timber_ops.Domain.Decimal.{Tons}
use timber_ops.Store.Rows.{Time}
use timber_ops.Weighbridge.Device.{DeviceStatus, device_status_eq, Mode, returns}
use timber_ops.Weighbridge.Simulator.{Weight, Simulator, get_or, min, advanced, observe, as_reading}
use timber_ops.Weighbridge.Precision.{observe_returns}
use timber_ops.Weighbridge.Adapter.{
  Adapter, Settings, is_refused, validate_simulator_weights, of_mode, create_weighbridge_adapter,
  read_weight,
}

-- The adapter after reads at these times.
unfoldable pub reads : List Time → Adapter → Adapter
unfolding read_weight
reads [] adapter = adapter
reads (now ∷ times) adapter = reads times (read_weight now adapter).0.1

-- An online simulator at an index.
abbrev at_index : List Weight → Bool → ℕ → Simulator
at_index ws stable i = record {
  weights = ws;
  stable = stable;
  device_status = DeviceStatus.online;
  index = i;
}

abbrev last_index : List Weight → ℕ
last_index ws = length ws - 1

advanced_lem :
    (ws : List Weight) (stable : Bool) (i : ℕ)
    → advanced (at_index ws stable i)
      ≡ at_index ws stable (if ltb i (last_index ws) then i + 1 else i)
advanced_lem ws stable i = elim (Bool-cases (ltb i (last_index ws))) [
  | inl more ↦ rw more refl
  | inr stays ↦ rw stays refl
]

next_min :
    (i n last : ℕ)
    → i ≤ last
    → ((if ltb i last then i + 1 else i) ≤ last)
      × (min ((if ltb i last then i + 1 else i) + n) last ≡ min (i + suc n) last)
next_min i n last h = (ground arith, ground arith)

min_here : (i last : ℕ) → i ≤ last → min (i + 0) last ≡ i
min_here i last h = ground arith

reads_lem :
    (times : List Time) (ws : List Weight) (stable : Bool) (i : ℕ)
    → i ≤ last_index ws
    → reads times (Adapter.simulated (at_index ws stable i))
      ≡ Adapter.simulated (at_index ws stable (min (i + length times) (last_index ws)))
unfolding reads
reads_lem [] ws stable i h =
    ap (λ j. Adapter.simulated (at_index ws stable j)) (sym (min_here i (last_index ws) h))
reads_lem (now ∷ times) ws stable i h =
    let (below, same) = next_min i (length times) (last_index ws) h in
    ap (λ s. reads times (Adapter.simulated s)) (advanced_lem ws stable i)
    ∙ reads_lem times ws stable (if ltb i (last_index ws) then i + 1 else i) below
    ∙ ap (λ j. Adapter.simulated (at_index ws stable j)) same

-- what the validator accepts, at each index
get_or-accepted :
    (ws : List Weight) (i : ℕ)
    → any is_refused ws ≡ false
    → i < length ws
    → is_refused (get_or ws i Weight.not_finite) ≡ false
get_or-accepted [] i h l = absurd (omega arith)
get_or-accepted (w ∷ ws) zero h l = ground arith
get_or-accepted (w ∷ ws) (suc i) h l = get_or-accepted ws i (ground arith) (omega arith)

min_below : (n : ℕ) (w : Weight) (ws : List Weight) → min n (last_index (w ∷ ws)) < length (w ∷ ws)
min_below n w ws = ground arith

min_twice : (n last : ℕ) → min (min n last) last ≡ min n last
min_twice n last = ground arith

module _ (w : Weight) (ws : List Weight) (stable : Bool)
    (fine : any is_refused (w ∷ ws) ≡ false) where
  abbrev fresh : Adapter
  fresh = Adapter.simulated (at_index (w ∷ ws) stable 0)

  abbrev nth : ℕ → ℕ
  nth n = min n (last_index (w ∷ ws))

  fresh-reads :
      (times : List Time)
      → reads times fresh ≡ Adapter.simulated (at_index (w ∷ ws) stable (nth (length times)))
  fresh-reads times =
      let from_zero : 0 + length times ≡ length times = omega arith in
      reads_lem times (w ∷ ws) stable 0 (omega arith)
      ∙ ap (λ n. Adapter.simulated (at_index (w ∷ ws) stable (nth n))) from_zero

  -- a read of the simulator at an index
  read_at :
      (now : Time) (n : ℕ) (t : Tons)
      → observe (get_or (w ∷ ws) (nth n) Weight.not_finite) ≡ returns t
      → (read_weight now (Adapter.simulated (at_index (w ∷ ws) stable (nth n)))).0.0
        ≡ as_reading now stable (returns t)
  unfolding read_weight
  read_at now n t h =
      ap (λ i. as_reading now stable (observe (get_or (w ∷ ws) i Weight.not_finite)))
        (min_twice n (last_index (w ∷ ws)))
      ∙ ap (as_reading now stable) h

  fresh_returns :
      (times : List Time) (now : Time)
      → (t : Tons) × (observe (get_or (w ∷ ws) (nth (length times)) Weight.not_finite) ≡ returns t)
        × ((read_weight now (reads times fresh)).0.0 ≡ as_reading now stable (returns t))
  fresh_returns times now =
      let accepted =
        get_or-accepted (w ∷ ws) (nth (length times)) fine (min_below (length times) w ws) in
      let (t, e) =
        observe_returns (get_or (w ∷ ws) (nth (length times)) Weight.not_finite) accepted in
      (t, e, ap (λ a. (read_weight now a).0.0) (fresh-reads times) ∙ read_at now (length times) t e)

of_accepted :
    (ws accepted : List Weight) (stable : Bool)
    → validate_simulator_weights ws ≡ ok accepted
    → (adapter : Adapter) × (of_mode Mode.simulator (record {
      weighbridge_mode = Mode.simulator;
      weighbridge_simulator_weights = ws;
      weighbridge_simulator_stable = stable;
      weighbridge_simulator_status = DeviceStatus.online;
    })
        ≡ ok adapter)
      × ((times : List Time) (now : Time)
          → (t : Tons) × (observe (get_or ws (min (length times) (length ws - 1)) Weight.not_finite)
              ≡ returns t)
            × ((read_weight now (reads times adapter)).0.0 ≡ as_reading now stable (returns t)))
unfolding validate_simulator_weights
of_accepted [] accepted stable v = absurd (cc)
of_accepted (w ∷ ws) accepted stable v =
    let (fine, _) = raise_if-eq-ok (any is_refused (w ∷ ws)) value_error _ _ v in
    (fresh w ws stable fine, refl, fresh_returns w ws stable fine)

-- With settings of an online simulator whose weights the validator accepts, an adapter is built, and
-- every read of it returns a reading, at the time of the read: the first reads return the configured
-- weights in their order, each rounded to a thousandth, and all later ones the last weight.
pub every_read_returns :
    (settings : Settings) (accepted : List Weight)
    → settings.weighbridge_mode ≡ Mode.simulator
    → settings.weighbridge_simulator_status ≡ DeviceStatus.online
    → validate_simulator_weights settings.weighbridge_simulator_weights ≡ ok accepted
    → (adapter : Adapter) × (create_weighbridge_adapter settings ≡ ok adapter)
      × ((times : List Time) (now : Time)
          → (t : Tons) × (observe (
                get_or settings.weighbridge_simulator_weights
                  (min (length times) (length settings.weighbridge_simulator_weights - 1))
                  Weight.not_finite)
              ≡ returns t)
            × ((read_weight now (reads times adapter)).0.0
                ≡ returns (record {
                  weight = t;
                  stable = settings.weighbridge_simulator_stable;
                  timestamp = now;
                  device_status = DeviceStatus.online;
                })))
unfolding create_weighbridge_adapter
every_read_returns settings accepted m o v =
    rw (m, o)
      (of_accepted settings.weighbridge_simulator_weights accepted
        settings.weighbridge_simulator_stable v)
