-- ===== src/Process/Samples.antt =====
-- The inputs of the tests: a file with two errors, systems, globals and options.
use dmanix.Base.{false, none, some, List, [], ◌∷◌, ◌++◌, Text, codes, text_eq, if◌then◌else◌}
use dmanix.Base.Int.{pos}
use dmanix.Lint.{Action, report, Globals, total, detailed, emacs, vs7}
use dmanix.Lint.Categories.{default_filters}
use dmanix.Style.Width.{UnicodeData}
use dmanix.Process.{Setting}
use dmanix.Process.File.{System}

abbrev pub plain_data : UnicodeData
plain_data = record { normalize_nfc = λ t. t; is_wide = λ c. false; is_combining = λ c. false }

abbrev pub setting_a : Setting
setting_a = record {
  filename = codes "a.cc";
  file_extension = codes "cc";
  cppvar = [];
  full_name = codes "/p/a.cc";
  names = record { repository_name = codes "a.cc"; base_name = codes "a" };
  verbose_level = pos 0;
  unicodedata = plain_data;
  open_file = λ f. none;
}

abbrev pub copyright_report : Action
copyright_report = report (codes "a.cc") 0 (codes "legal/copyright") 5 (
    codes
      "No copyright message found.  You should have a line: \"Copyright [year] <Copyright Owner>\"")

abbrev pub tight_lines : List Text
tight_lines = codes "int a=b;" ∷ [] ∷ []

abbrev pub tight_reports : List Action
tight_reports =
    copyright_report
    ∷ report (codes "a.cc") 1 (codes "whitespace/operators") 4 (codes "Missing spaces around =")
    ∷ []

abbrev pub system_a : System
system_a = record {
  stdin = none;
  read_file = λ f. if text_eq f (codes "b.cc") then none else some (codes "int a=b;\n");
  open_file = λ f. none;
  linesep = 10 ∷ [];
  full_name = λ f. codes "/p/" ++ f;
  exists = λ f. false;
  unicodedata = plain_data;
}

abbrev pub globals_a : Globals
globals_a = record {
  state = record {
    verbose_level = pos 1;
    error_count = 7;
    filters = default_filters;
    counting = detailed;
    errors_by_category = [];
    output_format = emacs;
  };
  suppressions = [];
  written = [];
}

abbrev pub globals_quiet : Globals
globals_quiet = record globals_a {
  state = record globals_a.state { verbose_level = pos 6 };
  written = codes "Done processing a.cc\n" ∷ [];
}

abbrev pub globals_done : Globals
globals_done = record globals_a {
  state = record globals_a.state {
    error_count = 2;
    errors_by_category = (codes "legal/copyright", 1) ∷ (codes "whitespace/operators", 1) ∷ [];
  };
  written =
      codes "Skipping input 'b.cc': Can't open for reading\n"
      ∷ codes
          "a.cc:0:  No copyright message found.  You should have a line: \"Copyright [year] <Copyright Owner>\"  [legal/copyright] [5]\n"
      ∷ codes "a.cc:1:  Missing spaces around =  [whitespace/operators] [4]\n"
      ∷ codes "Done processing a.cc\n"
      ∷ codes "Ignoring c.py; not a .cc or .h file\n"
      ∷ codes "Done processing c.py\n"
      ∷ codes "Category 'legal/copyright' errors found: 1\n"
      ∷ codes "Category 'whitespace/operators' errors found: 1\n"
      ∷ codes "Total errors found: 2\n"
      ∷ [];
}

abbrev pub three_files : List Text
three_files = codes "b.cc" ∷ codes "a.cc" ∷ codes "c.py" ∷ []

abbrev pub options_a : List (Text × Text)
options_a =
    (codes "--filter", codes "+build,-whitespace")
    ∷ (codes "--output", codes "vs7")
    ∷ (codes "--verbose", codes "3")
    ∷ []

abbrev pub globals_parsed : Globals
globals_parsed = record globals_a {
  state = record globals_a.state {
    verbose_level = pos 3;
    filters = codes "-build/include_alpha" ∷ codes "+build" ∷ codes "-whitespace" ∷ [];
    counting = total;
    output_format = vs7;
  };
}

abbrev pub setting_of_a : Setting
setting_of_a = record setting_a {
  names = record { repository_name = codes "/p/a.cc"; base_name = codes "a" };
}

abbrev pub text_a : Text
text_a = codes "int a=b;\n"
