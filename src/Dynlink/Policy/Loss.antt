-- ===== src/Dynlink/Policy/Loss.antt =====
-- gs/fpvdgs/dynlink/policy.py: `Policy.loss_event`, the fast path.
use fpvd.Prelude.{
  true, false, ◌||◌, not, Option, none, some, [], ◌∷◌, ◌++◌, map, ltb, if◌then◌else◌,
}
use fpvd.Prelude.Float.{Float}
use fpvd.Dynlink.Selector.{LeadingSelector}
use fpvd.Dynlink.Selector.Select.{Inputs, select}
use fpvd.Dynlink.Signals.{Signals}
use fpvd.Dynlink.Policy.State.{PolicyReason, fast, Decision, Policy, ts_ms_of}
use fpvd.Dynlink.Policy.Demotes.{cooldown_ok}
use fpvd.Dynlink.Policy.Tick.{teach}

module _ {F : Type 0} ⦃fl : Float F⦄ where
  abbrev pub loss_inputs : Policy F → Signals F → Inputs F
  loss_inputs p s = record {
    snr_ewma = s.snr;
    snr_w = s.snr_w;
    slope = none;
    loss_rate = s.residual_loss_w;
    loss_demote = true;
    target_confident = false;
    target_blocked = false;
    fec_pressure = s.fec_work;
    link_starved = false;
    can_demote = true;
    ts_ms = ts_ms_of s;
    probe_veto = false;
    probe_release = false;
  }

  abbrev pub after_loss : Policy F → Signals F → LeadingSelector F → Policy F × Option (Decision F)
  after_loss p s chosen =
      let q = record p { leading = chosen } in
      if ltb chosen.current_mcs p.leading.current_mcs
      then (
        record q {
          windows_since_demote = 0;
          learned_prior = teach p.learned_prior chosen.last_fail;
        },
        some (record {
          timestamp = s.timestamp;
          mcs = chosen.current_mcs;
          reason = map PolicyReason.leading chosen.reasons ++ fast ∷ [];
        }),
      )
      else (q, none)

  abbrev pub lost :
      Policy F → Signals F → Option (LeadingSelector F) → Option (Policy F × Option (Decision F))
  lost p s none = none
  lost p s (some chosen) = some (after_loss p s chosen)

  -- `loss_event`, the fast path; the inner option is the decision, if a demote fired.
  unfoldable pub loss_event : Policy F → Signals F → Option (Policy F × Option (Decision F))
  loss_event p s =
      if fl.lt s.residual_loss_w p.cfg.selector.video_demote_per || not (cooldown_ok p)
      then some (p, none)
      else lost p s (select p.leading (loss_inputs p s))
