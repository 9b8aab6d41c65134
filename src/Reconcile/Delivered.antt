-- ===== src/Reconcile/Delivered.antt =====
-- The delivery and the whole round are sound.
use pua.Prelude.{ℕ, ◌+◌, true, false, ◌≡◌, refl, sym, subst, ap, ◌∙◌, Option, none, some, arith}
use pua.Generation.Facts.{Plan}
use pua.Generation.Legacy.{GenerationRecord, HubSession}
use pua.Mailbox.Message.{ProviderContext, MailMessage, is_waiting, is_interrupting}
use pua.Reconcile.Steps.{Steps, rests}
use pua.Reconcile.Updates.{add_context, begin_delivery, touched}
use pua.Reconcile.World.{World, delivers, State, update, send, ◌>>=◌}
use pua.Reconcile.Sound.{
  Sound, Start, Same, begin, Ensures, goes_on, bind, asked, updated, from_Start, write_then,
  then_next,
}
use pua.Reconcile.Round.{lifecycle_plan}
use pua.Reconcile.Deliver.{
  gate, ensure_context, deliver, freeze, context_by, dispatch, carry_out, round,
}
use pua.Reconcile.Opened.{drop_legacy-Sound, acquire-Sound}
use pua.Reconcile.Followed.{hold-Sound, observe-Sound, prepare-Sound, follow-Sound}
use pua.Reconcile.Interrupted.{sends, await_interrupt-Sound}
use pua.Reconcile.Frozen.{freeze-Sound}
use pua.Reconcile.Answered.{
  Admitted, to_delivering, told_not, admitted, carries, gate-Admitted, answered-Sound,
  work_chain-keeps,
}

-- The message that is stored has what was fixed.
abbrev Ready : MailMessage → MailMessage → State → Type 0
Ready m x t =
    (y : MailMessage) × Start y t
    × Same m y
    × (y.status ≡ m.status)
    × (y.actual_mode ≡ x.actual_mode)

module _ (w : World) (m : MailMessage) (h : is_waiting m.status ≡ true) where
  like-Sound : (y : MailMessage) (n : ℕ) → Same m y → y.status ≡ m.status → Sound m (begin y n)
  like-Sound y n same e = record {
    same = same;
    moved = subst (λ a. Steps m.status a) (sym e) rests;
    proper = tt;
    few = omega arith;
    told = λ d. absurd (told_not y.status (rw e h) d);
  }

  context_by-Sound :
      (c : Option ProviderContext) (x : MailMessage) (n : ℕ)
      → Same m x
      → x.status ≡ m.status
      → Ensures m (λ y t. Sound m t × Ready m x t) (context_by w c x (begin x n))
  unfolding add_context touched
  context_by-Sound (some c) x n same e =
      goes_on (like-Sound x n same e, (x, (n, refl), same, e, refl))
  context_by-Sound none x n same e =
      bind _ _ _
        (asked {Q = λ c t. Start x t} w.context (begin x n) (like-Sound x n same e)
          (λ a. (n, refl)))
        (λ c t q.
          from_Start x (update w (add_context c))
            (λ k. updated w (add_context c) (begin x k) (like-Sound x k same e) (
              like-Sound (touched w.clock (add_context c x)) (k + 1) same e,
              (touched w.clock (add_context c x), (k + 1, refl), same, e, refl),
            ))
            t q)

  dispatch-Sound :
      (p : Plan) (g : GenerationRecord) (y : MailMessage) (s : HubSession) (n : ℕ)
      → Same m y
      → y.status ≡ m.status
      → is_interrupting m.status ≡ false
      → Admitted y s
      → Ensures m (λ e t. Sound m t) (dispatch w p g s (begin y n))
  unfolding dispatch begin_delivery touched
  dispatch-Sound p g y s n same e i a =
      write_then w (begin_delivery g s w.clock) _ (begin y n) (like-Sound y n same e) (
        bind _ _ _
          (asked {Q = λ b t. Start z t} w.outbound (begin z (n + 1)) (stored (n + 1))
            (λ b. (n + 1, refl)))
          (λ b t q.
            bind _ _ _
              (from_Start z (send delivers s)
                (λ k.
                  sends w delivers s z k (stored k) refl (same.0, refl, refl, admitted y s m e a))
                t q)
              (λ c u r. answered-Sound w p s z w.sending u (r.0, r.2, ap (λ v. v.status) r.1))))
    where
      z : MailMessage
      z = touched w.clock (begin_delivery g s w.clock y)

      stored : (k : ℕ) → Sound m (begin z k)
      stored k = record {
        same = same;
        moved = to_delivering m.status h i;
        proper = tt;
        few = omega arith;
        told = λ d. ground (arith, d);
      }

  deliver-Sound :
      (p : Plan) (g : GenerationRecord) (x : MailMessage) (s : HubSession) (n : ℕ)
      → Same m x
      → x.status ≡ m.status
      → is_interrupting m.status ≡ false
      → Admitted x s
      → Ensures m (λ e t. Sound m t) (deliver w p g x s (begin x n))
  unfolding deliver ensure_context
  deliver-Sound p g x s n same e i a =
      bind _ _ _
        (bind _ _ _ (context_by-Sound x.provider_context x n same e)
          (λ y t q. work_chain-keeps w {R = Ready m x} y t q.0 q.1))
        (λ b t r.
          from_Start r.0 (dispatch w p g s)
            (λ k. dispatch-Sound p g r.0 s k r.2 r.3 i (carries x r.0 s (r.3 ∙ sym e) r.4 a)) t r.1)

  gated-Sound :
      (p : Plan) (g : GenerationRecord) (x : MailMessage) (s : HubSession) (n : ℕ)
      → Same m x
      → x.status ≡ m.status
      → is_interrupting m.status ≡ false
      → Ensures m (λ e t. Sound m t) ((gate w x s >>= λ _. deliver w p g x s) (begin x n))
  gated-Sound p g x s n same e i =
      bind _ _ _
        (gate-Admitted w {R = λ t. Start x t} x s (begin x n) (like-Sound x n same e) (n, refl))
        (λ c t z.
          from_Start x (deliver w p g x s) (λ k. deliver-Sound p g x s k same e i z.1) t z.0)

  carry_out-Sound :
      (p : Plan) (g : GenerationRecord) (s : HubSession) (n : ℕ)
      → Ensures m (λ e t. Sound m t) (carry_out w p g m s (begin m n))
  unfolding carry_out
  carry_out-Sound p g s n = then_next _ _ _ (follow-Sound w m h p.operation s n) (λ a k.
      bind _ _ _ (await_interrupt-Sound w m h p g s k) (λ b u r.
        from_Start m (freeze w p g m s >>= λ x. gate w x s >>= λ _. deliver w p g x s)
          (λ j. bind _ _ _ (freeze-Sound w m h p g s j) (λ x v f.
            from_Start x (gate w x s >>= λ _. deliver w p g x s)
              (λ i. gated-Sound p g x s i f.1 f.2 r.1) v f.0))
          u r.0))

  pub round-Sound : (n : ℕ) → Ensures m (λ e t. Sound m t) (round w m (begin m n))
  unfolding round
  round-Sound n = then_next _ _ _ (drop_legacy-Sound w m h n) (λ a i.
      then_next _ _ _ (acquire-Sound w m h i) (λ g j. then_next _ _ _ (hold-Sound w m h g j) (λ b k.
        then_next _ _ _ (observe-Sound w m h k) (λ s l.
          then_next _ _ _ (prepare-Sound w m h s l)
            (λ r o. carry_out-Sound (lifecycle_plan w r s) r s o)))))
