-- ===== src/Reliability.antt =====
-- The objectives of the service (backend/src/reliability.rs): samples of latencies and of whether
-- everything is up, their percentiles, the overview and the health summary.
pub mod Drills
use Prim.Native.Nat.{max, min}
use mini_siem_project.Prelude.{
  ℕ, ◌-◌, Bool, true, false, ◌&&◌, ◌||◌, length, is_empty, get_elem?, retain, unwrap_or, String,
  Option, none, some, List, [], ◌∷◌, if◌then◌else◌,
}
use mini_siem_project.Prelude.Eff.{Result, ok, err, Eff, pure, ◌>>=◌}

abbrev pub ingest_availability_key : String
ingest_availability_key = "siem:reliability:ingest_availability_samples"

abbrev pub detection_latency_key : String
detection_latency_key = "siem:reliability:detection_latency_ms_samples"

abbrev pub alert_delivery_latency_key : String
alert_delivery_latency_key = "siem:reliability:alert_delivery_latency_ms_samples"

-- The operations of `f64` used here: its literals by name, the tests, a share in percent, the place of
-- a quantile, `((n - 1) * q.clamp(0, 1)).round()`, the text with three decimals and `parse`.
pub record SampleFloats (F : Type 0) : Type 0 where
  pub zero : F
  pub half : F
  pub p95 : F
  pub p99 : F
  pub percent_95 : F
  pub percent_99 : F
  pub percent_99_9 : F
  pub ms_2000 : F
  pub lt : F → F → Bool
  pub ge : F → F → Bool
  -- `partial_cmp` is `Greater`
  pub greater : F → F → Bool
  pub percent_of : ℕ → ℕ → F
  pub place : ℕ → F → ℕ
  pub show_3 : F → String
  pub parse : String → Option F

-- The lists of the cache.
pub record SampleLists (S : Type 0) : Type 0 where
  pub lpush_trim : String → String → ℕ → Option ℕ → Eff S (Unit {0})
  pub lrange_all : String → Eff S (List String)

-- The checks of the services behind; there is none of the search index where it is not set up.
pub record Probes (S : Type 0) : Type 0 where
  pub ping_db : Eff S (Unit {0})
  pub ping_cache : Eff S (Unit {0})
  pub queue_health : Eff S (Unit {0})
  pub elastic_health : Option (Eff S (Unit {0}))

pub record ReliabilitySloSnapshot (F : Type 0) : Type 0 where
  pub ingest_availability_target_percent : F
  pub ingest_availability_observed_percent : F
  pub detection_latency_target_p95_ms : F
  pub detection_latency_p95_ms : F
  pub detection_latency_p99_ms : F
  pub alert_delivery_latency_target_p95_ms : F
  pub alert_delivery_latency_p95_ms : F
  pub alert_delivery_latency_p99_ms : F
  pub sample_count : ℕ
  pub status : String

pub record ReliabilityOverview (F R : Type 0) : Type 0 where
  pub tenant_id : String
  pub snapshot : ReliabilitySloSnapshot F
  pub recent_reports : List R

module _ {F : Type 0} (floats : SampleFloats F) where
  abbrev insert_sample : F → List F → List F
  insert_sample x [] = x ∷ []
  insert_sample x (y ∷ ys) =
      let rest = insert_sample x ys in if floats.greater x y then y ∷ rest else x ∷ y ∷ ys

  -- `sort_by`, which keeps equal samples in their order.
  unfoldable pub sorted : List F → List F
  sorted [] = []
  sorted (x ∷ xs) = insert_sample x (sorted xs)

  unfoldable pub percentile : List F → F → F
  unfolding sorted
  percentile values quantile =
      if is_empty values
      then floats.zero
      else unwrap_or floats.zero (
          get_elem? (sorted values)
            (min (floats.place (length (sorted values)) quantile) (length (sorted values) - 1)))

  abbrev parsed : List String → List F
  parsed [] = []
  parsed (t ∷ ts) = elim (floats.parse t) [ none ↦ parsed ts | some x ↦ x ∷ parsed ts ]

  abbrev samples_of : Result (List String) → List F
  samples_of (ok ts) = parsed ts
  samples_of (err e) = []

  module _ {S : Type 0} (lists : SampleLists S) where
    -- Never an error: no samples where the list cannot be read.
    unfoldable pub read_samples : String → Eff S (List F)
    read_samples key s = let (r, s') = lists.lrange_all key s in (ok (samples_of r), s')

    unfoldable pub record_latency_sample : String → F → Eff S (Unit {0})
    record_latency_sample key latency_ms =
        lists.lpush_trim key (floats.show_3 latency_ms) 512 (some 604_800)

    unfoldable pub record_detection_latency : F → Eff S (Unit {0})
    unfolding record_latency_sample
    record_detection_latency latency_ms = record_latency_sample detection_latency_key latency_ms

    unfoldable pub record_alert_delivery_latency : F → Eff S (Unit {0})
    unfolding record_latency_sample
    record_alert_delivery_latency latency_ms =
        record_latency_sample alert_delivery_latency_key latency_ms

  unfoldable pub observed_percent : List F → F
  observed_percent samples =
      if is_empty samples
      then floats.zero
      else floats.percent_of (length (retain (λ v. floats.ge v floats.half) samples))
          (length samples)

  unfoldable pub slo_status : F → F → F → String
  slo_status available detection delivery =
      if floats.lt available floats.percent_95
      then "down"
      else if floats.lt available floats.percent_99
          || (floats.lt floats.ms_2000 detection || floats.lt floats.ms_2000 delivery)
      then "degraded"
      else "healthy"

  unfoldable pub snapshot_of : List F → List F → List F → ReliabilitySloSnapshot F
  unfolding observed_percent percentile slo_status
  snapshot_of ingest detection delivery = record {
    ingest_availability_target_percent = floats.percent_99_9;
    ingest_availability_observed_percent = observed_percent ingest;
    detection_latency_target_p95_ms = floats.ms_2000;
    detection_latency_p95_ms = percentile detection floats.p95;
    detection_latency_p99_ms = percentile detection floats.p99;
    alert_delivery_latency_target_p95_ms = floats.ms_2000;
    alert_delivery_latency_p95_ms = percentile delivery floats.p95;
    alert_delivery_latency_p99_ms = percentile delivery floats.p99;
    sample_count = max (max (length ingest) (length detection)) (length delivery);
    status =
        slo_status (observed_percent ingest) (percentile detection floats.p95)
          (percentile delivery floats.p95);
  }

  -- The samples are those of the whole service; the reports are the tenant's.
  unfoldable pub build_reliability_overview :
      {S R : Type 0}
      → SampleLists S
      → (String → ℕ → Eff S (List R))
      → String
      → Eff S (ReliabilityOverview F R)
  unfolding read_samples snapshot_of
  build_reliability_overview lists list_reliability_reports tenant_id = do
    ingest ← read_samples lists ingest_availability_key
    detection ← read_samples lists detection_latency_key
    delivery ← read_samples lists alert_delivery_latency_key
    reports ← list_reliability_reports tenant_id 12
    pure (record {
      tenant_id = tenant_id;
      snapshot = snapshot_of ingest detection delivery;
      recent_reports = reports;
    })

abbrev answers : {S : Type 0} → Eff S (Unit {0}) → S → Bool × S
answers m s = let (r, s') = m s in (elim r [ ok u ↦ true | err e ↦ false ], s')

abbrev elastic_ok : {S : Type 0} → Option (Eff S (Unit {0})) → S → Bool × S
elastic_ok none s = (false, s)
elastic_ok (some m) s = answers m s

-- The next check is made only if the ones before are answered.
abbrev and_then : {S : Type 0} → Bool × S → (S → Bool × S) → Bool × S
and_then (true, s) m = m s
and_then (false, s) m = (false, s)

unfoldable pub record_ingest_availability_sample :
    {S : Type 0} → SampleLists S → Probes S → Eff S (Unit {0})
record_ingest_availability_sample lists probes s =
    let (elastic, s1) = elastic_ok probes.elastic_health s in
    let (behind, s2) =
      and_then (and_then (answers probes.ping_db s1) (answers probes.ping_cache))
        (answers probes.queue_health) in
    lists.lpush_trim ingest_availability_key (if behind && elastic then "1" else "0") 10_080
      (some 691_200) s2

-- The checks of the database, the cache, the queue and the search index, and whether all are answered.
pub record HealthSummary : Type 0 where
  pub db : Bool
  pub redis : Bool
  pub kafka : Bool
  pub elasticsearch : Bool
  pub all_healthy : Bool

unfoldable pub health_probe_summary : {S : Type 0} → Probes S → S → HealthSummary × S
health_probe_summary probes s =
    let (d, s1) = answers probes.ping_db s in
    let (r, s2) = answers probes.ping_cache s1 in
    let (k, s3) = answers probes.queue_health s2 in
    let (e, s4) = elastic_ok probes.elastic_health s3 in
    (
      record {
        db = d;
        redis = r;
        kafka = k;
        elasticsearch = e;
        all_healthy = d && (r && (k && e));
      },
      s4,
    )
