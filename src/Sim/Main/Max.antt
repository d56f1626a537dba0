-- ===== src/Sim/Main/Max.antt =====
-- The options of model/qsim.cc that leave `max` as it is.
use homa_nic.Prelude.{ℕ, ◌≡◌, ◌∙◌, refl, subst, Bool, true, false, List, [], ◌∷◌, All, none, some}
use homa_nic.Prelude.{aborted, ok, err, Ends, Any, Ends->>=, Ends-map}
use Prim.Native.String.{String}
use homa_nic.Sim.Idle.{default_max}
use homa_nic.Sim.Main.{
  World, Flag, Options, defaults, set_option, p_flag, q_flag, w_flag, u_flag, c_flag, t_flag,
  s_flag, m_flag, other_flag, parse_options,
}

-- `-m`.
abbrev pub is_max : Flag → Bool
is_max m_flag = true
is_max p_flag = false
is_max q_flag = false
is_max w_flag = false
is_max u_flag = false
is_max c_flag = false
is_max t_flag = false
is_max s_flag = false
is_max other_flag = false

module _ (W : World) where
  open W use {Real}

  set_option-max :
      (flag : Flag) (arg : String) (o : Options Real)
      → is_max flag ≡ false
      → Ends Any (λ o'. o'.max ≡ o.max) (set_option W flag arg o)
  unfolding set_option
  set_option-max p_flag arg o h =
      elim (W.stoi arg)
        as (λ z.
          Ends Any (λ o'. o'.max ≡ o.max)
            (elim z [ none ↦ err aborted | some n ↦ ok (record o { priorities = n }) ])) [
              | none ↦ tt
              | some n ↦ refl
            ]
  set_option-max q_flag arg o h = refl
  set_option-max w_flag arg o h = refl
  set_option-max u_flag arg o h = refl
  set_option-max c_flag arg o h = refl
  set_option-max t_flag arg o h = refl
  set_option-max s_flag arg o h = refl
  set_option-max m_flag arg o h = absurd (cc)
  set_option-max other_flag arg o h = tt

  parse_options-max :
      (args : List (Flag × String)) (o : Options Real)
      → All (λ a. is_max a.0 ≡ false) args
      → Ends Any (λ o'. o'.max ≡ o.max) (parse_options W args o)
  unfolding parse_options
  parse_options-max [] o h = refl
  parse_options-max ((flag, arg) ∷ args) o h =
      Ends->>= Any (λ o'. o'.max ≡ o.max) (λ o'. o'.max ≡ o.max) (set_option W flag arg o) _
        (set_option-max flag arg o h.0)
        (λ o' e.
          Ends-map Any (λ u. u.max ≡ o'.max) (λ u. u.max ≡ o.max) (parse_options W args o')
            (λ u k. k ∙ e) (parse_options-max args o' h.1))

  -- Options without `-m` leave `max` at its initial value.
  pub max_kept :
      (util : Real) (duration : ℕ) (args : List (Flag × String)) (o : Options Real)
      → All (λ a. is_max a.0 ≡ false) args
      → parse_options W args (defaults util duration) ≡ ok o
      → o.max ≡ default_max
  max_kept util duration args o h p =
      subst (Ends Any (λ u. u.max ≡ default_max)) p
        (parse_options-max args (defaults util duration) h)
