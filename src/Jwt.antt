-- ===== src/Jwt.antt =====
-- PyJWT, a parameter of the model. A token stands for its text, and a time in a payload for the
-- seconds that are written for it.
use Prim.Native.String.{count}
use marcel_arch.Prelude.{
  ℕ, ◌≤◌, ◌<◌, String, ◌≡◌, Bool, true, false, Option, none, some, List, [], ◌∷◌, ◌&&◌, not, all,
  is_some,
}
use marcel_arch.Prelude.Int.{pos}
use marcel_arch.Value.{Value, str, int, list, Fields, end, field, get}
use marcel_arch.Conditions.{member, all_str}

abbrev pub is_plain : Value → Bool
is_plain (str s) = true
is_plain (int n) = true
is_plain (list xs) = all_str xs
is_plain _ = false

-- Every claim is a text, a number or a list of texts, and stands once: JSON gives it back as it was.
unfoldable pub all_plain : Fields → Bool
unfolding get
all_plain end = true
all_plain (field k v rest) = is_plain v && not (is_some (get k rest)) && all_plain rest

-- What `decode` checks of the claims at the time `now`, beside the signature.
pub record IsCurrent (audience issuer : String) (required : List String) (now : ℕ) (claims : Fields)
    : Type 0 where
  pub plain : all_plain claims ≡ true
  pub complete : all (λ claim. is_some (get claim claims)) required ≡ true
  pub subject : String
  pub sub : get "sub" claims ≡ some (str subject)
  pub no_jti : get "jti" claims ≡ none
  pub aud : get "aud" claims ≡ some (str audience)
  pub iss : get "iss" claims ≡ some (str issuer)
  pub iat : ℕ
  pub nbf : ℕ
  pub exp : ℕ
  pub has_iat : get "iat" claims ≡ some (int (pos iat))
  pub has_nbf : get "nbf" claims ≡ some (int (pos nbf))
  pub has_exp : get "exp" claims ≡ some (int (pos exp))
  pub iat_past : iat ≤ now
  pub nbf_past : nbf ≤ now
  pub exp_future : now < exp

pub record Jwt : Type 1 where
  pub Token : Type 0
  -- the claims, the secret and the algorithm
  pub encode : Fields → String → String → Token
  -- the token, the secret, the algorithm, the audience, the issuer, the required claims and the
  -- current time in seconds; `none` where it raises
  pub decode : Token → String → String → String → String → List String → ℕ → Option Fields
  pub decode-encode :
      (claims : Fields) (secret algorithm audience issuer : String) (required : List String)
      (now : ℕ)
      → member algorithm ("HS256" ∷ "HS384" ∷ "HS512" ∷ []) ≡ true
      → 32 ≤ count secret
      → IsCurrent audience issuer required now claims
      → decode (encode claims secret algorithm) secret algorithm audience issuer required now
        ≡ some claims
