-- ===== src/Config/Secure.antt =====
-- What the command line of src/config/parser.rs can turn off.
use open_rmbt_server.Common.{
  ◌≡◌, refl, subst, ◌≢◌, ◌⊎◌, inl, inr, Bool, true, false, ◌||◌, Option, none, some, List, [], ◌∷◌,
  if◌then◌else◌, Option-cases, All,
}
use open_rmbt_server.Text.{Bytes, codes, eq_bytes, parse_unsigned, u64_max}
use open_rmbt_server.Config.Cli.{
  StdParsers, Cli, Parsed, run, done, exit_one, parse_addr, parse_syslog_target, Action, with_value,
  plain, stop, map_some, action, finish, parse_args, parse_cli,
}

abbrev Checks : Cli → Type 0
Checks cli = cli.config.check_token ≡ true

-- Token checking stays on, however the action goes on.
StaysOn : Action → Type 0
StaysOn (with_value f) = (v : Bytes) (cli : Cli) → f v ≡ some cli → Checks cli
StaysOn (plain cli) = Checks cli
StaysOn (stop r) = (cli : Cli) → r ≢ run cli

record IsSecure (x : Action) : Type 0 where
  pub holds : StaysOn x

plain-IsSecure : (cli : Cli) → Checks cli → IsSecure (plain cli)
unfolding StaysOn
plain-IsSecure cli h = record { holds = h }

if-IsSecure : (b : Bool) (x y : Action) → IsSecure x → IsSecure y → IsSecure (if b then x else y)
if-IsSecure true x y h k = h
if-IsSecure false x y h k = k

if_false-IsSecure :
    (b : Bool) (x y : Action) → b ≡ false → IsSecure y → IsSecure (if b then x else y)
if_false-IsSecure true x y e k = absurd (cc e)
if_false-IsSecure false x y e k = k

done-IsSecure : IsSecure (stop done)
unfolding StaysOn
done-IsSecure = record { holds = λ cli e. cc e }

exit_one-IsSecure : IsSecure (stop exit_one)
unfolding StaysOn
exit_one-IsSecure = record { holds = λ cli e. cc e }

some-injective : {a b : Cli} → some a ≡ some b → a ≡ b
some-injective e = cc e

some-IsSecure :
    (f : Bytes → Cli) → ((v : Bytes) → Checks (f v)) → IsSecure (with_value (λ v. some (f v)))
unfolding StaysOn
some-IsSecure f h = record { holds = λ v cli e. subst Checks (some-injective e) (h v) }

map_some-Checks :
    {A : Type 0} (f : A → Cli) (o : Option A)
    → ((a : A) → Checks (f a))
    → (cli : Cli) → map_some f o ≡ some cli
    → Checks cli
map_some-Checks f none h cli e = absurd (cc e)
map_some-Checks f (some a) h cli e = subst Checks (some-injective e) (h a)

finish-Checks : (cli : Cli) → Checks cli → Checks (finish cli)
unfolding finish
finish-Checks cli h = h

Action-cases :
    (x : Action)
    → ((f : Bytes → Option Cli) × (x ≡ with_value f))
      ⊎ (((cli : Cli) × (x ≡ plain cli)) ⊎ ((r : Parsed) × (x ≡ stop r)))
Action-cases (with_value f) = inl (f, refl)
Action-cases (plain cli) = inr (inl (cli, refl))
Action-cases (stop r) = inr (inr (r, refl))

run-injective : {a b : Cli} → run a ≡ run b → a ≡ b
run-injective e = cc e

finished : (cli cli' : Cli) → Checks cli → run (finish cli) ≡ run cli' → Checks cli'
finished cli cli' h e = subst Checks (run-injective e) (finish-Checks cli h)

IsOther : Bytes → Type 0
IsOther arg = eq_bytes arg (codes "--no-token-check") ≡ false

module _ (t : StdParsers) where
  parsed-IsSecure :
      {A : Type 0} (parse : Bytes → Option A) (f : A → Cli)
      → ((a : A) → Checks (f a))
      → IsSecure (with_value (λ v. map_some f (parse v)))
  unfolding StaysOn
  parsed-IsSecure parse f h = record { holds = λ v cli e. map_some-Checks f (parse v) h cli e }

  action-IsSecure :
      (arg : Bytes) (cli : Cli)
      → eq_bytes arg (codes "--no-token-check") ≡ false
      → Checks cli
      → IsSecure (action t arg cli)
  unfolding action
  action-IsSecure arg cli n h =
      if-IsSecure (eq_bytes arg (codes "-l")) _ _ (parsed-IsSecure (parse_addr t) _ λ a. h) (
        if-IsSecure (eq_bytes arg (codes "-L")) _ _ (parsed-IsSecure (parse_addr t) _ λ a. h) (
          if-IsSecure (eq_bytes arg (codes "-c")) _ _ (some-IsSecure _ λ v. h) (
            if-IsSecure (eq_bytes arg (codes "-k")) _ _ (some-IsSecure _ λ v. h) (
              if-IsSecure (eq_bytes arg (codes "--tls13-only")) _ _ (plain-IsSecure _ h) (
                if-IsSecure (eq_bytes arg (codes "--hsts")) _ _ (plain-IsSecure _ h) (
                  if-IsSecure (eq_bytes arg (codes "-S")) _ _ (some-IsSecure _ λ v. h) (
                    if-IsSecure (eq_bytes arg (codes "-t")) _ _
                      (parsed-IsSecure (parse_unsigned u64_max) _ λ a. h)
                      (if-IsSecure (eq_bytes arg (codes "-log")) _ _
                        (parsed-IsSecure t.level _ λ a. h)
                        (if-IsSecure (eq_bytes arg (codes "-s")) _ _ (plain-IsSecure _ h) (
                          if_false-IsSecure (eq_bytes arg (codes "--no-token-check")) _ _ n (
                            if-IsSecure (eq_bytes arg (codes "--v2-only")) _ _ (plain-IsSecure _ h)
                              (if-IsSecure (eq_bytes arg (codes "--syslog")) _ _
                                (parsed-IsSecure (parse_syslog_target t) _ λ a. h)
                                (if-IsSecure (eq_bytes arg (codes "--log-full-ip")) _ _
                                  (plain-IsSecure _ h)
                                  (if-IsSecure
                                    (eq_bytes arg (codes "--help")
                                      || eq_bytes arg (codes "-h")
                                      || (eq_bytes arg (codes "-v")
                                          || eq_bytes arg (codes "--version")))
                                    _ _ done-IsSecure exit_one-IsSecure))))))))))))))

  parse_args_secure :
      (args : List Bytes) (cli cli' : Cli)
      → All IsOther args
      → Checks cli
      → parse_args t args cli ≡ run cli'
      → Checks cli'
  unfolding parse_args IsOther StaysOn
  parse_args_secure [] cli cli' o h e = finished cli cli' h e
  parse_args_secure (arg ∷ []) cli cli' (o, os) h e = elim (Action-cases (action t arg cli)) [
    | inl (f, x) ↦ finished cli cli' h (rw (x, parse_args) at e)
    | inr (inl (c, x)) ↦
        finished c cli' (subst StaysOn x (action-IsSecure arg cli o h).holds)
          (rw (x, parse_args) at e)
    | inr (inr (r, x)) ↦
        absurd (subst StaysOn x (action-IsSecure arg cli o h).holds cli' (rw (x, parse_args) at e))
  ]
  parse_args_secure (arg ∷ v ∷ args) cli cli' (o, os) h e = elim (Action-cases (action t arg cli)) [
    | inl (f, x) ↦ elim (Option-cases (f v)) [
      | inl n ↦ absurd (cc (rw (x, n, parse_args) at e))
      | inr (c, n) ↦
          parse_args_secure args c cli' os.1
            (subst StaysOn x (action-IsSecure arg cli o h).holds v c n) (rw (x, n, parse_args) at e)
    ]
    | inr (inl (c, x)) ↦
        parse_args_secure (v ∷ args) c cli' os (subst StaysOn x (action-IsSecure arg cli o h).holds)
          (rw (x, parse_args) at e)
    | inr (inr (r, x)) ↦
        absurd (subst StaysOn x (action-IsSecure arg cli o h).holds cli' (rw (x, parse_args) at e))
  ]

-- Only the flag `--no-token-check` turns token checking off: if no argument is that text, every
-- configuration that the command line gives checks tokens.
pub parse_cli_secure :
    (t : StdParsers) (args : List Bytes) (cli : Cli)
    → All (λ arg. eq_bytes arg (codes "--no-token-check") ≡ false) args
    → parse_cli t args ≡ run cli
    → cli.config.check_token ≡ true
unfolding parse_cli IsOther
parse_cli_secure t args cli o e = parse_args_secure t args _ cli o refl e
