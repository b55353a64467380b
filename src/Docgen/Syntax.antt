-- ===== src/Docgen/Syntax.antt =====
-- The syntax tree as the scanner sees it: the nodes that it tells apart with their fields, and the
-- others with their children, each in the order of ast.iter_child_nodes.
use flagsmith_common.Base.{ℕ, String, Option}

mutual
  pub data Node : Type 0 where
    name : (id : String) → Node
    attribute : (value : Node) (attr : String) → Node
    call : (func : Node) (args : Nodes) (keywords : Keywords) (lineno : ℕ) → Node
    string_constant : (value : String) → Node
    class_def : (name : String) (bases : Nodes) (keywords : Keywords) (body others : Nodes) → Node
    -- FunctionDef and AsyncFunctionDef
    function_def : (name : String) (arguments body others : Nodes) → Node
    assign : (targets : Nodes) (value : Node) (lineno : ℕ) → Node
    -- a Return with a value
    returns : (value : Node) → Node
    expr : (value : Node) → Node
    other : (children : Nodes) → Node

  pub data Nodes : Type 0 where
    nil : Nodes
    cons : Node → Nodes → Nodes

  -- keyword arguments; `**kwargs` has no name
  pub data Keywords : Type 0 where
    end : Keywords
    keyword : (arg : Option String) (value : Node) → Keywords → Keywords
