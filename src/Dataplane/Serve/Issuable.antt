-- ===== src/Dataplane/Serve/Issuable.antt =====
-- What an issuance of `ServeHTTP` (bridge/dataplane/handler.go) rests on, from the validation of the
-- token on.
use harbor_workload_identity.Base.{
  ℕ, true, false, ◌≡◌, refl, sym, ap, ◌∙◌, List, some, ok, subst, ok_injective, >>=-ok, require-ok,
  >>=-eq-ok, require-eq-ok, arith,
}
use harbor_workload_identity.Text.{Bytes, text_eq}
use harbor_workload_identity.Text.Prefix.{text_eq_iff, text_eq_self}
use harbor_workload_identity.HarborAccess.{HarborAccess, token_ttl_ok}
use harbor_workload_identity.RobotSecret.{
  Secret, secret_name, is_managed, stamped_for_other, credentials, rotation_not_before,
}
use harbor_workload_identity.RobotSecret.Owners.{NamesOwner, stamped_for_other_iff}
use harbor_workload_identity.Dataplane.CacheTtl.{cache_duration}
use harbor_workload_identity.Dataplane.Matching.{Claims, Match, Found, find_harbor_access}
use harbor_workload_identity.Dataplane.Credentials.{
  RobotCreds, robot_creds, read_robot_secret, robot_username,
}
use harbor_workload_identity.Dataplane.Handler.{
  Handler, Issuance, validate_token, look_up, select_harbor_access, read_creds, wanted_username,
  issue,
}

-- What an issuance rests on.
pub record IsIssuable (h : Handler) (now : ℕ) (token : Bytes) (i : Issuance) : Type 0 where
  pub items : List HarborAccess
  pub validated : h.validate token ≡ ok i.claims
  pub listed : h.list_by_subject i.claims.subject ≡ ok items
  pub selected :
      (find_harbor_access h.audience i.claims items).matched
      ≡ some (record { ha = i.matched; aud = i.aud_matched })
  pub ttl_ok : token_ttl_ok i.matched.spec.token_ttl ≡ true
  pub read :
      read_robot_secret h.clock h.hash_of h.get_secret h.bridge_namespace i.matched ≡ ok i.creds
  pub named : robot_username h.robot_username_of i.matched ≡ ok i.creds.username
  pub cached :
      i.ttl ≡ cache_duration i.matched.spec.token_ttl.duration i.creds.rotation_not_before now

validate_token-ok :
    (h : Handler) (token : Bytes) {c : Claims}
    → validate_token h token ≡ ok c
    → h.validate token ≡ ok c
unfolding validate_token
validate_token-ok h token e = ground arith

look_up-ok :
    (h : Handler) (c : Claims) {found : Found}
    → look_up h c ≡ ok found
    → (items : List HarborAccess) × (h.list_by_subject c.subject ≡ ok items)
      × (found ≡ find_harbor_access h.audience c items)
unfolding look_up
look_up-ok h c e = ground arith

select_harbor_access-ok :
    (c : Claims) (found : Found) {m : Match}
    → select_harbor_access c found ≡ ok m
    → found.matched ≡ some m
unfolding select_harbor_access
select_harbor_access-ok c found e = ground arith

read_creds-ok :
    (h : Handler) (c : Claims) (ha : HarborAccess) {creds : RobotCreds}
    → read_creds h c ha ≡ ok creds
    → read_robot_secret h.clock h.hash_of h.get_secret h.bridge_namespace ha ≡ ok creds
unfolding read_creds
read_creds-ok h c ha e = ground arith

wanted_username-ok :
    (h : Handler) (c : Claims) (ha : HarborAccess) {want : Bytes}
    → wanted_username h c ha ≡ ok want
    → robot_username h.robot_username_of ha ≡ ok want
unfolding wanted_username
wanted_username-ok h c ha e = ground arith

pub issue-IsIssuable :
    (h : Handler) (now : ℕ) (token : Bytes) (i : Issuance)
    → issue h now token ≡ ok i
    → IsIssuable h now token i
unfolding issue
issue-IsIssuable h now token i e =
    let (claims, v, e1) = >>=-eq-ok (validate_token h token) _ e in
    let (found, l, e2) = >>=-eq-ok (look_up h claims) _ e1 in
    let (m, s, e3) = >>=-eq-ok (select_harbor_access claims found) _ e2 in
    let (t, e4) = require-eq-ok (token_ttl_ok m.ha.spec.token_ttl) _ _ e3 in
    let (creds, c, e5) = >>=-eq-ok (read_creds h claims m.ha) _ e4 in
    let (want, w, e6) = >>=-eq-ok (wanted_username h claims m.ha) _ e5 in
    let (u, e7) = require-eq-ok (text_eq creds.username want) _ _ e6 in
    let (items, listed, f) = look_up-ok h claims {found = found} l in
    let picked =
      sym (ap (λ (x : Found). x.matched) f) ∙ select_harbor_access-ok claims found {m = m} s in
    let same = (text_eq_iff creds.username want).0 u in
    let built : IsIssuable h now token (record {
      claims = claims;
      matched = m.ha;
      aud_matched = m.aud;
      creds = creds;
      ttl = cache_duration m.ha.spec.token_ttl.duration creds.rotation_not_before now;
    }) =
      record {
        items = items;
        validated = validate_token-ok h token {c = claims} v;
        listed = listed;
        selected = picked;
        ttl_ok = t;
        read = read_creds-ok h claims m.ha {creds = creds} c;
        named = wanted_username-ok h claims m.ha {want = want} w ∙ ap ok (sym same);
        cached = refl;
      } in
    subst (IsIssuable h now token) (ok_injective e7) built

pub IsIssuable-issue :
    (h : Handler) (now : ℕ) (token : Bytes) (i : Issuance)
    → IsIssuable h now token i
    → issue h now token ≡ ok i
unfolding issue validate_token look_up find_harbor_access select_harbor_access read_creds
    wanted_username
IsIssuable-issue h now token i p =
    let m : Match = record { ha = i.matched; aud = i.aud_matched } in
    let found = find_harbor_access h.audience i.claims p.items in
    let v : validate_token h token ≡ ok i.claims = rw (p.validated, validate_token) refl in
    let l : look_up h i.claims ≡ ok found = rw (p.listed, look_up) refl in
    let s : select_harbor_access i.claims found ≡ ok m =
      rw (p.selected, select_harbor_access) refl in
    let c : read_creds h i.claims i.matched ≡ ok i.creds = rw (p.read, read_creds) refl in
    let w : wanted_username h i.claims i.matched ≡ ok i.creds.username =
      rw (p.named, wanted_username) refl in
    >>=-ok (validate_token h token) _ v (
      >>=-ok (look_up h i.claims) _ l (
        >>=-ok (select_harbor_access i.claims found) _ {a = m} s (
          require-ok (token_ttl_ok i.matched.spec.token_ttl) _ _ p.ttl_ok (
            >>=-ok (read_creds h i.claims i.matched) _ c (
              >>=-ok (wanted_username h i.claims i.matched) _ w (
                require-ok (text_eq i.creds.username i.creds.username) _ _
                  (text_eq_self i.creds.username)
                  (ap ok (λ t. record {
                    claims = i.claims;
                    matched = i.matched;
                    aud_matched = i.aud_matched;
                    creds = i.creds;
                    ttl = sym p.cached t;
                  }))))))))

robot_creds-ok :
    (h : Handler) (ha : HarborAccess) (s : Secret) {creds : RobotCreds}
    → robot_creds h.clock ha s ≡ ok creds
    → (is_managed s ≡ true)
      × (stamped_for_other s ha.namespace ha.name ≡ false)
      × (credentials s ≡ some (creds.username, creds.password))
      × (creds.rotation_not_before ≡ rotation_not_before h.clock s)
unfolding robot_creds
robot_creds-ok h ha s e = ground arith

-- The Secret behind the credentials.
pub read_robot_secret-ok :
    (h : Handler) (ha : HarborAccess) {creds : RobotCreds}
    → read_robot_secret h.clock h.hash_of h.get_secret h.bridge_namespace ha ≡ ok creds
    → (s : Secret) × (h.get_secret h.bridge_namespace (secret_name h.hash_of ha.namespace ha.name)
        ≡ ok s)
      × NamesOwner s ha.namespace ha.name
      × (credentials s ≡ some (creds.username, creds.password))
      × (creds.rotation_not_before ≡ rotation_not_before h.clock s)
unfolding read_robot_secret
read_robot_secret-ok h ha {creds} e =
    let (s, got, e1) = >>=-eq-ok _ (robot_creds h.clock ha) e in
    let (managed, own, complete, promise) = robot_creds-ok h ha s {creds = creds} e1 in
    (
      s,
      ground arith,
      (stamped_for_other_iff s ha.namespace ha.name).0 (managed, own),
      complete,
      promise,
    )
