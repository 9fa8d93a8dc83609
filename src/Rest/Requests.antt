-- ===== src/Rest/Requests.antt =====
-- What the polls of the REST collector say, and what comes of a job.
use Prim.Native.String.{◌++◌ as str_append}
use l8collector.Prelude.{
  ◌≡◌, ap, ◌∙◌, true, false, String, ◌==◌, string_eq, nat_eq, inr, ◌∷◌, if_yes, if_no,
}
use l8collector.Text.Splitting.{two_append}
use l8collector.Text.Parts.{split_colons, is_part, split_colons-append, split_colons-alone}
use l8collector.Rest.Jobs.{What, is_method, what_of, parse_what}

-- the text of a poll, as the documentation of parseWhat writes it
abbrev pub write_what : What → String
write_what w = str_append w.method (
    str_append "::" (
      str_append w.endpoint (str_append "::" (str_append w.body (str_append "::" w.content_type)))))

-- No part has two colons in a row or a colon at its end.
abbrev pub AreParts : What → Type 0
AreParts w =
    (is_part w.method ≡ true)
    × (is_part w.endpoint ≡ true)
    × (is_part w.body ≡ true)
    × (is_part w.content_type ≡ true)

first_part :
    (s rest : String)
    → is_part s ≡ true
    → split_colons (str_append s (str_append "::" rest)) ≡ s ∷ split_colons rest
first_part s rest h =
    ap (λ t. split_colons (str_append s t)) (two_append ":" ":" rest) ∙ split_colons-append s rest h

-- parseWhat reads a text of four parts back, and one of three parts with the content type of JSON, where the
-- method is one of the five, a content type is given, and no part has two colons in a row or a colon at its end.
pub parse_what-write_what :
    (w : What)
    → AreParts w
    → is_method w.method ≡ true
    → (w.content_type == "") ≡ false
    → (parse_what (write_what w) ≡ inr w)
      × (parse_what
            (str_append w.method (str_append "::" (str_append w.endpoint (str_append "::" w.body))))
          ≡ inr (record w { content_type = "application/json" }))
unfolding parse_what
parse_what-write_what w (pm, pe, pb, pc) m c = (
  ap what_of (
        first_part w.method _ pm
        ∙ ap (λ l. w.method ∷ l)
            (first_part w.endpoint _ pe
              ∙ ap (λ l. w.endpoint ∷ l)
                  (first_part w.body w.content_type pb
                    ∙ ap (λ l. w.body ∷ l) (split_colons-alone w.content_type pc))))
      ∙ if_yes _ m
      ∙ ap (λ t. inr (record w { content_type = t })) (if_no "application/json" c),
  ap what_of (
        first_part w.method _ pm
        ∙ ap (λ l. w.method ∷ l)
            (first_part w.endpoint w.body pe
              ∙ ap (λ l. w.endpoint ∷ l) (split_colons-alone w.body pb)))
      ∙ if_yes _ m,
)
