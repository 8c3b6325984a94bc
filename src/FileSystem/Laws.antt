-- ===== src/FileSystem/Laws.antt =====
-- What a path shows after the file system has changed at another one, or at itself.
use data_relay_grpc.Base.{
  ◌≡◌, refl, List, [], ◌∷◌, none, some, ite, arith, ◌⊎◌, inl, inr, if_pos, if_neg, sym, ap, ◌∙◌,
}
use data_relay_grpc.Text.{Text}
use data_relay_grpc.FileSystem.{
  FilePath, FilePath-discrete, Node, FileSystem, find_node, put_node, erase_node, children, exists,
  remove, removed,
}

pub find_node-put_node :
    (p q : FilePath) (n : Node) (ns : List (FilePath × Node))
    → find_node q (put_node p n ns) ≡ ite (FilePath-discrete p q) (some n) (find_node q ns)
unfolding find_node put_node
find_node-put_node p q n [] = refl
find_node-put_node p q n ((r, m) ∷ ns) = ground (arith, find_node-put_node p q n ns)

pub find_node-erase_node :
    (p q : FilePath) (ns : List (FilePath × Node))
    → find_node q (erase_node p ns) ≡ ite (FilePath-discrete p q) none (find_node q ns)
unfolding find_node erase_node
find_node-erase_node p q [] = ground arith
find_node-erase_node p q ((r, m) ∷ ns) = ground (arith, find_node-erase_node p q ns)

-- A path is one of a list.
abbrev pub Occurs : FilePath → List FilePath → Type 0
Occurs p [] = ⊥
Occurs p (q ∷ ps) = (q ≡ p) ⊎ Occurs p ps

pub dec_occurs : (p : FilePath) (ps : List FilePath) → Dec (Occurs p ps)
dec_occurs p [] = no (λ h. h)
dec_occurs p (q ∷ ps) = elim (FilePath-discrete q p) [
  | yes e ↦ yes (inl e)
  | no n ↦ elim (dec_occurs p ps) [
    | yes o ↦ yes (inr o)
    | no m ↦ no (λ h. elim h [ inl e ↦ n e | inr o ↦ m o ])
  ]
]

pub children_complete :
    (name : Text) (d : FilePath) (n : Node) (ns : List (FilePath × Node))
    → find_node (name ∷ d) ns ≡ some n
    → Occurs (name ∷ d) (children d ns)
unfolding find_node children
children_complete name d n [] e = cc
children_complete name d n (([], m) ∷ ns) e = ground (arith, children_complete name d n ns)
children_complete name d n ((x ∷ parent, m) ∷ ns) e = ground (arith, children_complete name d n ns)

pub children_sound :
    (q d : FilePath) (ns : List (FilePath × Node))
    → Occurs q (children d ns)
    → (name : Text) × (q ≡ name ∷ d)
unfolding children
children_sound q d [] h = elim h [ ]
children_sound q d (([], m) ∷ ns) h = children_sound q d ns h
children_sound q d ((x ∷ parent, m) ∷ ns) h = elim (FilePath-discrete parent d) [
  | yes p ↦
      let h' : Occurs q ((x ∷ parent) ∷ children d ns) = rw (if_pos _ p) at h in
      elim h' [ inl e ↦ (x, sym e ∙ ap (λ r. x ∷ r) p) | inr r ↦ children_sound q d ns r ]
  | no p ↦ let h' : Occurs q (children d ns) = rw (if_neg _ p) at h in children_sound q d ns h'
]

-- After `remove` the path shows nothing, and all others show what they did.
pub find_node-remove :
    (fs fs' : FileSystem) (p q : FilePath)
    → remove fs p ≡ some fs'
    → find_node q fs'.nodes ≡ ite (FilePath-discrete (fs.resolve p) q) none (find_node q fs.nodes)
unfolding remove exists removed
find_node-remove fs fs' p q e = ground (arith, find_node-erase_node (fs.resolve p) q fs.nodes)

-- What the operating system decides stays as it was.
pub record SameSystem (fs fs' : FileSystem) : Type 0 where
  pub resolve : fs'.resolve ≡ fs.resolve
  pub can_open : fs'.can_open ≡ fs.can_open
  pub can_remove : fs'.can_remove ≡ fs.can_remove

pub remove-SameSystem :
    (fs fs' : FileSystem) (p : FilePath) → remove fs p ≡ some fs' → SameSystem fs fs'
unfolding remove removed
remove-SameSystem fs fs' p e = ground arith
