-- ===== src/Rest/Frame.antt =====
-- A login and the check of a session keep the host and the base URL.
use l8collector.Prelude.{
  ◌≡◌, refl, ◌∙◌, Option, none, some, String, string_eq, nat_eq, ◌⊎◌, inl, inr, arith,
}
use l8collector.Rest.{Response, Web, Session, with_token, refreshed, refresh_csrf}
use l8collector.Rest.Calls.{
  visited, visit_page, other_source, logged_in, session_login, checked, ensure_session,
}

abbrev pub Same : {W : Type 0} → Session W → Session W → Type 0
Same s t = (t.base_url ≡ s.base_url) × (t.ainfo ≡ s.ainfo) × (t.addr ≡ s.addr)

Same-trans : {W : Type 0} (s t u : Session W) → Same s t → Same t u → Same s u
Same-trans s t u a b = (b.0 ∙ a.0, b.1 ∙ a.1, b.2 ∙ a.2)

module _ {W : Type 0} (web : Web W) where
  with_token_keeps : (page : String) (s : Session W) → Same s (with_token web page s)
  with_token_keeps page s = ground arith

  refreshed_keeps : (s : Session W) (p : (String ⊎ Response) × W) → Same s (refreshed web s p)
  refreshed_keeps s (inl e, w) = (refl, refl, refl)
  refreshed_keeps s (inr page, w) = with_token_keeps page.body (record s { client = w })

  refresh_csrf_keeps : (s : Session W) → Same s (refresh_csrf web s)
  unfolding refresh_csrf
  refresh_csrf_keeps s = ground (arith, refreshed_keeps s)

  visited_keeps : (s : Session W) (p : (String ⊎ Response) × W) → Same s (visited web s p).1
  visited_keeps s (inl e, w) = (refl, refl, refl)
  visited_keeps s (inr page, w) = with_token_keeps page.body (record s { client = w })

  visit_page_keeps : (s : Session W) → Same s (visit_page web s).1
  unfolding visit_page
  visit_page_keeps s = ground (arith, visited_keeps s)

  other_source_keeps : (r : Option String × Session W) → Same r.1 (other_source web r).1
  other_source_keeps (some e, s) = (refl, refl, refl)
  other_source_keeps (none, s) = ground (arith, refresh_csrf_keeps s)

  logged_in_keeps : (s : Session W) (p : (String ⊎ Response) × W) → Same s (logged_in web s p).1
  logged_in_keeps s (inl e, w) = (refl, refl, refl)
  logged_in_keeps s (inr r, w) =
      let t : Session W = record s { client = w } in
      ground (
        arith,
        Same-trans s (visit_page web t).1 (other_source web (visit_page web t)).1
            (visit_page_keeps t) (other_source_keeps (visit_page web t)),
      )

  pub session_login_keeps : (s : Session W) → Same s (session_login web s).1
  unfolding session_login
  session_login_keeps s = ground (arith, logged_in_keeps s)

  checked_keeps : (s : Session W) (p : (String ⊎ Response) × W) → Same s (checked web s p).1
  checked_keeps s (inl e, w) = session_login_keeps (record s { client = w })
  checked_keeps s (inr r, w) = ground (arith, session_login_keeps (record s { client = w }))

  pub ensure_session_keeps : (s : Session W) → Same s (ensure_session web s).1
  unfolding ensure_session
  ensure_session_keeps s = ground (arith, checked_keeps s)
