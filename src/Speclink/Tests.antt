-- ===== src/Speclink/Tests.antt =====
-- The theorem on tck/speclink/speclink.go at a concrete page, and runs of its functions.
use sandbox_kit_spec.Base.{
  ℕ, Bool, ◌&&◌, ◌||◌, ◌+◌, ◌≡◌, refl, some, [], ◌∷◌, Text, codes, leb, trim_space, if◌then◌else◌,
}
use sandbox_kit_spec.Speclink.{
  Reference, index, resolve, url, split_requirement, ref_of, reference, link,
}
use sandbox_kit_spec.Speclink.Headings.{Unicode, slug}
use sandbox_kit_spec.Speclink.Resolved.{IsAnswered, resolve-IsAnswered}

abbrev is_capital : ℕ → Bool
is_capital c = leb b'A' c && leb c b'Z'

abbrev ascii : Unicode
ascii = record {
  is_letter = λ c. is_capital c || (leb b'a' c && leb c b'z');
  is_digit = λ c. leb b'0' c && leb c b'9';
  to_lower = λ c. if is_capital c then c + 32 else c;
}

abbrev page : Text × Text
page = (codes "SPEC-v3.md", codes "# Kits\n### 9.3 The Lock\n<!-- tck: lock@1/order --> Order.\n")

slugged : slug ascii (codes "9.3 The Lock") ≡ codes "93-the-lock"
unfolding slug
slugged = refl

at_version : ref_of (codes "3.1.0") ≡ codes "v3.1.0"
unfolding ref_of
at_version = refl

abbrev order_statement : Reference
order_statement =
    reference (codes "main") (codes "lock@1/order") (codes "SPEC-v3.md") (codes "93-the-lock")

stated :
    resolve (codes "main") (index ascii (codes "main") (page ∷ [])) (codes " lock@1/order")
    ≡ some order_statement
unfolding resolve index
stated = refl

in_section :
    url (codes "main") (index ascii (codes "main") (page ∷ [])) (codes "SPEC-v3 §9.3/x")
    ≡ link (codes "main") (codes "SPEC-v3.md") (codes "93-the-lock")
unfolding url index
in_section = refl

of_capability :
    split_requirement (codes "lock@1/order")
    ≡ (codes "capabilities/com.docker.sandbox/lock@1.md", codes "order")
unfolding split_requirement
of_capability = refl

resolve-IsAnswered_example :
    IsAnswered ascii
      (codes "main")
      (page ∷ [])
      (trim_space (codes " lock@1/order"))
      (resolve (codes "main") (index ascii (codes "main") (page ∷ [])) (codes " lock@1/order"))
resolve-IsAnswered_example =
    resolve-IsAnswered ascii (codes "main") (page ∷ []) (codes " lock@1/order")
