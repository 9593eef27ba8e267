-- ===== src/Client/Accounts.antt =====
-- Where the tokens of the client wrappers are (server_scope.go, client.go, telemetry.go).
use firebirdsql_otel.Common.{
  ◌≡◌, refl, ap, Bool, true, false, ◌||◌, not, List, [], ◌∷◌, if_rule, arith,
}
use firebirdsql_otel.Text.{Bytes, equal, equal_iff, is_empty}
use firebirdsql_otel.Client.{TokenCall, registered, bound, discarded, Conn, discard, discard_unless}

-- Whether Register has returned a token, and whether it was bound or discarded.
unfoldable pub is_registered : Bytes → List TokenCall → Bool
unfolding equal
is_registered t [] = false
is_registered t (registered k ∷ log) = equal t k || is_registered t log
is_registered t (x ∷ log) = is_registered t log

unfoldable pub is_settled : Bytes → List TokenCall → Bool
unfolding equal
is_settled t [] = false
is_settled t (discarded k ∷ log) = equal t k || is_settled t log
is_settled t (bound k ∷ log) = equal t k || is_settled t log
is_settled t (x ∷ log) = is_settled t log

unfoldable pub is_held : Bytes → List Bytes → Bool
unfolding equal
is_held t [] = false
is_held t (k ∷ ks) = equal t k || is_held t ks

-- Every token that Register returned was bound or discarded, or is the fallback of the connection,
-- that of an open statement, or the given one; `ServerTrace` is set.
unfoldable pub IsAccounted : Bytes → Conn → Type 0
unfolding is_registered is_settled is_held equal
IsAccounted x c =
    (c.traced ≡ true)
    × ((t : Bytes)
        → (is_empty t
            || not (is_registered t c.log)
            || is_settled t c.log
            || equal t c.fallback_token
            || is_held t c.statements
            || equal t x)
          ≡ true)

pub equal-empty : (t a : Bytes) → is_empty a ≡ true → equal t a ≡ is_empty t
unfolding equal
equal-empty [] [] h = refl
equal-empty (x ∷ t) [] h = refl
equal-empty t (a ∷ s) h = ground (arith, h)

pub discard-IsAccounted : (x k : Bytes) (c : Conn) → IsAccounted x c → IsAccounted x (discard k c)
unfolding IsAccounted is_registered is_settled
discard-IsAccounted x k c (n, h) = (n, λ t. ground (arith, h t))

-- The given token is discarded, unless there is none.
pub settle-IsAccounted : (x : Bytes) (c : Conn) → IsAccounted x c → IsAccounted [] (discard x c)
unfolding IsAccounted is_registered is_settled
settle-IsAccounted x c (n, h) = (n, λ t. ground (arith, h t))

pub empty-IsAccounted :
    (x : Bytes) (c : Conn) → is_empty x ≡ true → IsAccounted x c → IsAccounted [] c
unfolding IsAccounted
empty-IsAccounted x c e (n, h) = (n, λ t. ground (arith, h t, equal-empty t x e))

pub discard_unless-IsAccounted :
    (x : Bytes) (c : Conn) → IsAccounted x c → IsAccounted [] (discard_unless (is_empty x) x c)
discard_unless-IsAccounted x c h =
    if_rule (IsAccounted []) (is_empty x) (λ e. empty-IsAccounted x c e h)
      λ _. settle-IsAccounted x c h

pub same-IsAccounted :
    (x k : Bytes) (c : Conn) → equal x k ≡ true → IsAccounted x c → IsAccounted [] (discard k c)
unfolding IsAccounted is_registered is_settled
same-IsAccounted x k c e (n, h) = (n, λ t. ground (arith, h t, ap (equal t) ((equal_iff x k).0 e)))

pub bound-IsAccounted :
    (x : Bytes) (c : Conn) → IsAccounted x c → IsAccounted [] (record c { log = bound x ∷ c.log })
unfolding IsAccounted is_registered is_settled
bound-IsAccounted x c (n, h) = (n, λ t. ground (arith, h t))

pub widen-IsAccounted : (x : Bytes) (c : Conn) → IsAccounted [] c → IsAccounted x c
unfolding IsAccounted
widen-IsAccounted x c (n, h) = (n, λ t. ground (arith, h t))

-- The fallback token of the connection is taken from it.
pub take-IsAccounted :
    (c : Conn) → IsAccounted [] c → IsAccounted c.fallback_token (record c { fallback_token = [] })
unfolding IsAccounted
take-IsAccounted c (n, h) = (n, λ t. ground (arith, h t))
