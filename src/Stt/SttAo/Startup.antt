-- ===== src/Stt/SttAo/Startup.antt =====
-- How the speech-to-text object starts.
use subtitle_overlay_fw.Base.{
  suc, ◌≡◌, refl, ap, Bool, true, false, not, ◌||◌, Bool-cases, ◌==◌, if◌then◌else◌, length, inl,
  inr, arith, Result-cases,
}
use subtitle_overlay_fw.Base.Int.{ℤ}
use subtitle_overlay_fw.Subtitle.SubtitleAo.{is_zero}
use subtitle_overlay_fw.Stt.WsConfig.{Config, config_default, parse_url}
use subtitle_overlay_fw.Stt.WsClient.{Client, Primitives, client_init, start}
use subtitle_overlay_fw.Stt.SttAo.{
  component_init, idle, ready, error, tran, SttAo, Answers, begin_stop, enter_error, refuse,
  started, initialized, on_component_init,
}
use subtitle_overlay_fw.Stt.SttAo.Reach.{armed, errors, stops, captions, defer, next, IsLive, Inv}

refuse-Inv : (code : ℤ) (me : SttAo) → Inv idle me → Inv error (refuse code me).1
unfolding enter_error begin_stop
refuse-Inv code me (l, (h, (r, t))) = rw h (
  record {
    let_go = refl;
    no_thread = t;
    idles = r;
    timer_off = ap armed l;
    errors_made = omega (arith, ap errors l);
    stops_made = ap stops l;
  },
  ap (λ k. suc (errors k)) l,
)

-- What on_component_init returns and leaves
abbrev pub Ran : ℤ × SttAo → Type 0
Ran r = if is_zero r.0 then IsLive false r.1 else Inv error r.1

-- What stt_ws_client_init returns and leaves
abbrev IsMade : ℤ × Client → Type 0
IsMade r =
    (r.1.worker_thread ≡ false)
    × (is_zero r.0 ≡ true
        → (r.1.initialized ≡ true) × ((r.1.worker_started ≡ false) × (r.1.deliveries_accepted ≡ 0)))

client_init-IsMade :
    (p : Primitives) (config : Config) (c : Client)
    → c.worker_thread ≡ false
    → IsMade (client_init p config c)
unfolding client_init
client_init-IsMade p config c t = elim (Bool-cases (length config.host == 0 || config.port == 0)) [
  | inl bad ↦ rw bad (t, λ h. cc)
  | inr good ↦
      elim (Bool-cases (not p.mutex || (not p.condattr || (not p.setclock || not p.cond)))) [
        | inl bad ↦ rw (good, bad) (refl, λ h. cc)
        | inr fine ↦ rw (good, fine) (refl, λ h. (refl, (refl, refl)))
      ]
]

started-Ran :
    (created : Bool) (c : Client) (me : SttAo)
    → c.initialized ≡ true
    → c.worker_started ≡ false
    → c.worker_thread ≡ false
    → c.deliveries_accepted ≡ 0
    → Inv idle me
    → Ran (started (start created c) me)
unfolding start
started-Ran true c me i s t d (l, (h, (n, t0))) =
    rw (i, s)
      (record {
        held = refl;
        handed = refl;
        served = (refl, (refl, (refl, (refl, λ h. refl))));
        counted = omega (arith, d, ap (λ k. length (captions k)) l);
        polls = refl;
        timer_on = refl;
        no_errors = ap errors l;
        no_stops = ap stops l;
      })
started-Ran false c me i s t d (l, (h, (n, t0))) = rw (i, s) (refuse-Inv _ _ (l, (refl, (n, t))))

initialized-Ran :
    (created : Bool) (r : ℤ × Client) (me : SttAo)
    → IsMade r
    → Inv idle me
    → Ran (initialized created r me)
initialized-Ran created r me (t, made) (l, (h, (n, t0))) = elim (Bool-cases (is_zero r.0)) [
  | inr z ↦ rw z (rw z (refuse-Inv r.0 (record me { client_instance = r.1 }) (l, (h, (n, t)))))
  | inl z ↦ let (i, (s, d)) = made z in rw z (started-Ran created r.1 me i s t d (l, (h, (n, t0))))
]

pub on_component_init-Ran : (a : Answers) (me : SttAo) → Inv idle me → Ran (on_component_init a me)
unfolding on_component_init
on_component_init-Ran a me inv =
    let (found, config) = config_default a.getenv in
    elim (Bool-cases found) [
      | inr no_url ↦ rw no_url (refuse-Inv _ me inv)
      | inl has_url ↦ elim (Result-cases (parse_url config.url config)) [
        | inl (why, e) ↦ rw (has_url, e) (refuse-Inv _ me inv)
        | inr (parsed, e) ↦
            rw (has_url, e)
              (initialized-Ran a.created (client_init a.primitives parsed me.client_instance) me
                (client_init-IsMade a.primitives parsed me.client_instance inv.1.1.1) inv)
      ]
    ]

pub init_outcome-Inv :
    (a : Answers) (r : ℤ × SttAo)
    → Ran r
    → let (o, me) = defer a component_init (if is_zero r.0 then tran ready else tran error, r.1) in
      Inv (next idle o) me
init_outcome-Inv a r ran = elim (Bool-cases (is_zero r.0)) [
  | inl z ↦ rw z (rw z at ran)
  | inr z ↦ rw z (rw z at ran)
]
