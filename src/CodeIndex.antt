-- ===== src/CodeIndex.antt =====
-- src/internal/codeindex: symbol.go (this file), relations.go (Relations), render.go (Render).
pub mod Relations
pub mod Render
pub mod Lines
pub mod Extract
use ragrep.Common.{ℕ, Text}

-- Lines and characters are never negative in a stored symbol.
pub record Position : Type 0 where
  pub line : ℕ
  pub character : ℕ

pub record Range : Type 0 where
  pub start : Position
  pub end : Position

pub record Symbol : Type 0 where
  pub key : Text
  pub language : Text
  pub kind : Text
  pub name : Text
  pub qualified_name : Text
  pub signature : Text
  pub documentation : Text
  pub container : Text
  pub path : Text
  pub range : Range
  pub body : Text
  pub body_hash : Text
  pub embedding_text : Text

pub record Relation : Type 0 where
  pub from_key : Text
  pub to_key : Text
  pub kind : Text
  pub source : Text
  pub to_path : Text
  pub to_position : Position
