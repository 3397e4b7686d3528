-- ===== src/Base/Message.antt =====
-- Texts and errors as the program builds them with fmt: a format and its arguments, not yet
-- rendered. No format of the program renders to the empty text: each has a literal part.
use Prim.Native.Nat.{ℕ}
use Prim.Native.String.{String}
use mathlib.Core.Bool.{Bool, true, false}
use mathlib.Core.List.{List}
use text.Mathlib.Text.{◌==◌}
use cnpg_ha.Base.Int.{ℤ}

-- The reason of an API error, as far as the program asks for it.
pub data Reason : Type 0 where
  not_found conflict : Reason
  other : String → Reason

mutual
  pub data Text : Type 0 where
    lit : String → Text
    sprintf : String → Args → Text
    joined : String → Text → Text → Text

  pub data Arg : Type 0 where
    str : String → Arg
    int : ℤ → Arg
    nat : ℕ → Arg
    flag : Bool → Arg
    names : List String → Arg
    message : Text → Arg
    error : Err → Arg

  pub data Args : Type 0 where
    end : Args
    arg : Arg → Args → Args

  -- `wrapf` is fmt.Errorf with a `%w` at the end of its format, `errorf` one without.
  pub data Err : Type 0 where
    api : Reason → Err
    errorf : String → Args → Err
    wrapf : String → Args → Err → Err

unfoldable pub is_empty : Text → Bool
is_empty (lit s) = s == ""
is_empty (sprintf f a) = false
is_empty (joined s a b) = false

-- apierrors.IsNotFound: it looks through the errors that `%w` wraps.
unfoldable pub is_not_found : Err → Bool
is_not_found (api not_found) = true
is_not_found (api _) = false
is_not_found (errorf f a) = false
is_not_found (wrapf f a e) = is_not_found e
