-- ===== src/Api/Live/Laws.antt =====
-- What a live session shows to its client.
use mini_siem_project.Prelude.{
  Bool, true, false, String, List, [], ◌∷◌, ◌++◌, ◌≡◌, refl, All, if◌then◌else◌,
}
use mini_siem_project.Prelude.Text.{str_eq_iff}
use mini_siem_project.Api.Live.{
  LiveEvent, alert_event, stats_event, lagged, channel_closed, ping, client_text, client_close,
  stream_error, stream_end, Sent, sent_alert, sent_stats, pong, offer, live_step, live_session,
}

-- The message is about the tenant, if it is about one.
abbrev pub About : String → Sent → Type 0
About tenant (sent_alert a) = a.tenant_id ≡ tenant
About tenant (sent_stats d) = d.tenant_id ≡ tenant
About tenant pong = Unit

All-append : {A : Type 0} (P : A → Type 0) (xs ys : List A) → All P xs → All P ys → All P (xs ++ ys)
All-append P [] ys h k = k
All-append P (x ∷ xs) ys (p, h) k = (p, All-append P xs ys h k)

offer-About :
    (tenant : String) (b : Bool) (m : Sent) (written reached : Bool)
    → (b ≡ true → About tenant m)
    → All (About tenant) (offer b m written reached).0
unfolding offer
offer-About tenant false m w r h = tt
offer-About tenant true m false r h = tt
offer-About tenant true m true true h = (h refl, tt)
offer-About tenant true m true false h = tt

live_step-About : (tenant : String) (e : LiveEvent) → All (About tenant) (live_step tenant e).0
unfolding live_step
live_step-About tenant (alert_event a w r) =
    offer-About tenant _ (sent_alert a) w r (str_eq_iff a.tenant_id tenant).0
live_step-About tenant (stats_event d w r) =
    offer-About tenant _ (sent_stats d) w r (str_eq_iff d.tenant_id tenant).0
live_step-About tenant lagged = tt
live_step-About tenant channel_closed = tt
live_step-About tenant (ping true) = (tt, tt)
live_step-About tenant (ping false) = tt
live_step-About tenant client_text = tt
live_step-About tenant client_close = tt
live_step-About tenant stream_error = tt
live_step-About tenant stream_end = tt

if_rest :
    {A : Type 0} (P : A → Type 0) (b : Bool) (xs ys : List A)
    → All P xs
    → All P ys
    → All P (if b then xs ++ ys else xs)
if_rest P true xs ys h k = All-append P xs ys h k
if_rest P false xs ys h k = h

-- A live session sends alerts and numbers of the tenant of its claims only, whatever goes through the
-- channels that all tenants share.
pub live_session-About :
    (tenant : String) (es : List LiveEvent) → All (About tenant) (live_session tenant es)
unfolding live_session
live_session-About tenant [] = tt
live_session-About tenant (e ∷ es) =
    if_rest (About tenant) (live_step tenant e).1 _ _ (live_step-About tenant e)
      (live_session-About tenant es)
