-- ===== src/Collector/Setup.antt =====
-- How `EbpfIngressCollector.__init__` settles the attribution of delivered traffic
-- (src/udp_analyzer/ebpf.py `_configure_delivery`).
use ebpf_udp_tcp_analyzer.Base.{
  ℕ, ◌≡◌, ◌≢◌, ◌⊎◌, refl, inl, inr, Bool, true, false, String, Option, none, some, ◌==◌, nat_eq,
  arith, if◌then◌else◌,
}
use ebpf_udp_tcp_analyzer.Errors.{Result, ok, err, runtime_error, ◌>>=◌, >>=-eq-ok}
use ebpf_udp_tcp_analyzer.Collector.{Attribution, disabled, legacy, cookie}
use ebpf_udp_tcp_analyzer.Loaders.Status.{ReceiveStatus}

-- `--delivery-attribution`
pub data Mode : Type 0 where
  ask_none ask_auto ask_cookie ask_legacy : Mode

-- The fields that `_configure_delivery` sets.
pub record Delivery : Type 0 where
  pub delivery_attribution : Attribution
  pub has_enricher : Bool
  -- the map of `delivered_reader`
  pub delivered_map_id : Option ℕ
  pub receive_backend : Option String

-- `BpftoolDeliveredMapReader(map_id)`
unfoldable pub delivered_reader : ℕ → Result ℕ
delivered_reader map_id = if map_id == 0 then err runtime_error else ok map_id

-- An enricher given with mode "none" turns the mode into "legacy".
unfoldable pub requested_mode : Bool → Mode → Mode
requested_mode true ask_none = ask_legacy
requested_mode has_enricher mode = mode

abbrev pub fallen_back : Delivery
fallen_back = record {
  delivery_attribution = legacy;
  has_enricher = true;
  delivered_map_id = none;
  receive_backend = none;
}

-- `except RuntimeError: if mode == "auto": fall back, else raise`
unfoldable pub settle_attach : Mode → Result ReceiveStatus → Result Delivery
unfolding delivered_reader
settle_attach ask_auto (err runtime_error) = ok fallen_back
settle_attach mode (err e) = err e
settle_attach mode (ok status) = do
  map_id ← delivered_reader status.map_id
  ok (record {
    delivery_attribution = cookie;
    has_enricher = true;
    delivered_map_id = some map_id;
    receive_backend = some status.backend;
  })

-- With `--no-attach`.
unfoldable pub settle_existing : Mode → Option ℕ → Result Delivery
unfolding delivered_reader
settle_existing mode (some receive_map_id) = do
  map_id ← delivered_reader receive_map_id
  ok (record {
    delivery_attribution = cookie;
    has_enricher = true;
    delivered_map_id = some map_id;
    receive_backend = some "existing-map";
  })
settle_existing ask_auto none = ok fallen_back
settle_existing mode none = err runtime_error

-- Modes "auto" and "cookie".
unfoldable pub settle_cookie : Mode → Bool → Option ℕ → Result ReceiveStatus → Result Delivery
unfolding settle_attach settle_existing
settle_cookie mode false receive_map_id attached = settle_existing mode receive_map_id
settle_cookie mode true receive_map_id attached = settle_attach mode attached

-- `_configure_delivery`; `attached` is the outcome of `ReceiveBpfAttachment.attach`.
unfoldable pub configure_delivery :
    Bool → Mode → Bool → Option ℕ → Result ReceiveStatus → Result Delivery
unfolding settle_cookie
configure_delivery has_enricher ask_none attach receive_map_id attached = ok (record {
  delivery_attribution = disabled;
  has_enricher = has_enricher;
  delivered_map_id = none;
  receive_backend = none;
})
configure_delivery has_enricher ask_legacy attach receive_map_id attached = ok fallen_back
configure_delivery has_enricher mode attach receive_map_id attached =
    settle_cookie mode attach receive_map_id attached

-- A delivered map is read exactly with attribution by socket cookie, and then its id is not 0; both
-- attributions have an enricher.
abbrev pub IsSettled : Delivery → Type 0
IsSettled d =
    ((d.delivery_attribution ≡ cookie)
      × (d.has_enricher ≡ true)
      × ((map_id : ℕ) × (d.delivered_map_id ≡ some map_id) × (map_id ≢ 0)))
    ⊎ ((d.delivery_attribution ≡ legacy) × (d.has_enricher ≡ true) × (d.delivered_map_id ≡ none))
    ⊎ ((d.delivery_attribution ≡ disabled) × (d.delivered_map_id ≡ none))

reader_not_zero : (n m : ℕ) → delivered_reader n ≡ ok m → m ≢ 0
unfolding delivered_reader
reader_not_zero n m h zero = ground (arith, h, zero)

cookie-IsSettled :
    (mode : Mode) (n : ℕ) (backend : String) (d : Delivery)
    → (delivered_reader n >>= λ map_id. ok (record {
      delivery_attribution = cookie;
      has_enricher = true;
      delivered_map_id = some map_id;
      receive_backend = some backend;
    }))
      ≡ ok d
    → IsSettled d × (mode ≡ ask_cookie → d.delivery_attribution ≡ cookie)
cookie-IsSettled mode n backend d h =
    let (map_id, read, made) = >>=-eq-ok (delivered_reader n) _ h in
    (
      inl (
        ground (arith, made),
        ground (arith, made),
        (map_id, ground (arith, made), reader_not_zero n map_id read),
      ),
      λ e. ground (arith, made),
    )

fallen-IsSettled :
    (mode : Mode) (d : Delivery)
    → mode ≢ ask_cookie
    → fallen_back ≡ d
    → IsSettled d × (mode ≡ ask_cookie → d.delivery_attribution ≡ cookie)
fallen-IsSettled mode d other e =
    rw (← e) (inr (inl (refl, refl, refl)), λ same. absurd (other same))

settle_attach-IsSettled :
    (mode : Mode) (attached : Result ReceiveStatus) (d : Delivery)
    → settle_attach mode attached ≡ ok d
    → IsSettled d × (mode ≡ ask_cookie → d.delivery_attribution ≡ cookie)
unfolding settle_attach
settle_attach-IsSettled ask_auto (err runtime_error) d h =
    fallen-IsSettled ask_auto d (λ e. ground (arith, e)) cc
settle_attach-IsSettled mode (ok status) d h =
    cookie-IsSettled mode status.map_id status.backend d h
settle_attach-IsSettled mode (err e) d h = absurd (ground (arith, h))

settle_existing-IsSettled :
    (mode : Mode) (receive_map_id : Option ℕ) (d : Delivery)
    → settle_existing mode receive_map_id ≡ ok d
    → IsSettled d × (mode ≡ ask_cookie → d.delivery_attribution ≡ cookie)
unfolding settle_existing
settle_existing-IsSettled mode (some n) d h = cookie-IsSettled mode n "existing-map" d h
settle_existing-IsSettled ask_auto none d h =
    fallen-IsSettled ask_auto d (λ e. ground (arith, e)) cc
settle_existing-IsSettled mode none d h = absurd (ground (arith, h))

settle_cookie-IsSettled :
    (mode : Mode) (attach : Bool) (receive_map_id : Option ℕ) (attached : Result ReceiveStatus)
    (d : Delivery)
    → settle_cookie mode attach receive_map_id attached ≡ ok d
    → IsSettled d × (mode ≡ ask_cookie → d.delivery_attribution ≡ cookie)
unfolding settle_cookie
settle_cookie-IsSettled mode false receive_map_id attached d h =
    settle_existing-IsSettled mode receive_map_id d h
settle_cookie-IsSettled mode true receive_map_id attached d h =
    settle_attach-IsSettled mode attached d h

-- A collector that comes up reads a delivered map exactly if it attributes by socket cookie, under
-- an id other than 0; attribution by cookie or by port has an enricher; and where "cookie" was
-- asked for, the attribution is by cookie.
pub configure_delivery-IsSettled :
    (has_enricher : Bool) (mode : Mode) (attach : Bool) (receive_map_id : Option ℕ)
    (attached : Result ReceiveStatus) (d : Delivery)
    → configure_delivery has_enricher mode attach receive_map_id attached ≡ ok d
    → IsSettled d × (mode ≡ ask_cookie → d.delivery_attribution ≡ cookie)
unfolding configure_delivery
configure_delivery-IsSettled has ask_none attach id attached d h =
    (inr (inr (ground (arith, h), ground (arith, h))), λ e. absurd (ground (arith, e)))
configure_delivery-IsSettled has ask_legacy attach id attached d h =
    fallen-IsSettled ask_legacy d (λ e. ground (arith, e)) cc
configure_delivery-IsSettled has mode attach id attached d h =
    settle_cookie-IsSettled mode attach id attached d h
