-- ===== src/Xml.antt =====
-- The element trees of `xml.etree.ElementTree`, as app/network.py and app/vm.py build them. How a
-- tree is written out as a text is the library's.
use docker_vm_runner.Base.{
  Text, Option, List, [], ◌∷◌, ◌==◌, text_eq, Bool, if◌then◌else◌, lookup, ◌≡◌, refl, ap,
}
use docker_vm_runner.Base.Dict.{Dict}

mutual
  -- The tag, the attributes, the text and the children.
  pub data Element : Type 0 where
    element : Text → Dict Text → Text → Elements → Element

  pub data Elements : Type 0 where
    no_element : Elements
    and_element : Element → Elements → Elements

abbrev to_elements : List Element → Elements
to_elements [] = no_element
to_elements (e ∷ es) = and_element e (to_elements es)

abbrev from_elements : Elements → List Element
from_elements no_element = []
from_elements (and_element e es) = e ∷ from_elements es

abbrev pub node : Text → Dict Text → List Element → Element
node tag attributes children = element tag attributes [] (to_elements children)

abbrev pub leaf : Text → Dict Text → Element
leaf tag attributes = element tag attributes [] no_element

abbrev pub text_leaf : Text → Dict Text → Text → Element
text_leaf tag attributes content = element tag attributes content no_element

abbrev pub tag_of : Element → Text
tag_of (element tag attributes content children) = tag

abbrev pub children_of : Element → List Element
children_of (element tag attributes content children) = from_elements children

-- `e.get(name)`
abbrev pub attribute : Text → Element → Option Text
attribute name (element tag attributes content children) = lookup name attributes

abbrev pub element_if : Bool → Element → List Element
element_if b e = if b then e ∷ [] else []

pub children-node : (es : List Element) → from_elements (to_elements es) ≡ es
children-node [] = refl
children-node (e ∷ es) = ap (λ t. e ∷ t) (children-node es)

-- The children with a tag.
unfoldable pub tagged : Text → List Element → List Element
tagged tag [] = []
tagged tag (e ∷ es) = let rest = tagged tag es in if tag_of e == tag then e ∷ rest else rest
