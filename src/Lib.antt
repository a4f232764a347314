-- ===== src/Lib.antt =====
-- A model of cpplint, the lint program for C++ of this repository: scripts/cpplint.py.
--
-- The program reads a file as lines, clears the multi-line comments, makes a cleansed copy of each
-- line without comments and strings, and runs its checks line by line. The checks share a state
-- for the include order, one for the function being read and one for the nesting of blocks, and
-- report through one error handler, which asks the NOLINT suppressions, the verbosity level and
-- the filters before it prints and counts. Here a check is a function of its state and of the
-- lines; it returns its new state and the list of the calls it makes, as values of the type
-- Action, in their order, and `perform` of Lint/Emit.antt makes these calls on the global state.
--
-- Which file models which part:
--   Base, Paths       texts as lists of code points with the methods of str, integers, os.path on names
--   Regex             the module re as the program uses it: patterns as data, the backtracking matcher as
--                     the list of all ways to match (Search has match, search, finditer and sub), and the
--                     relation that it decides (Relation, Rounds, Decides, Means, Bounds, FirstChar, FirstOf)
--   Lint              _CppLintState, _ShouldPrintError, Error (Emit, Counts, Filters), the table
--                     _ERROR_CATEGORIES (Categories), ParseNolintSuppressions and its kin (Suppress)
--   Headers           _IncludeState, _ClassifyInclude, CheckIncludeLine, FilesBelongToSameModule
--   Comments          the search for multi-line comments and RemoveMultiLineComments
--   Lines             IsCppString, CleanseComments, CleansedLines
--   Brackets          FindEndOfExpressionInLine and CloseExpression
--   Angles            FindNextMatchingAngleBracket and FindPreviousMatchingAngleBracket
--   TextInside        _GetTextInside
--   Functions         _FunctionState and CheckForFunctionLengths
--   Guard             CheckForHeaderGuard
--   Nesting           _BlockInfo, _ClassInfo, _NamespaceInfo, _PreprocessorInfo and _NestingState
--   Whole             the lines that ProcessFile reads, CheckForCopyright, CheckForNewlineAtEOF and
--                     CheckForUnicodeReplacementCharacters
--   Layout            IsBlankLine, GetPreviousNonBlankLine, CheckBraces, CheckEmptyLoopBody (Loops),
--                     CheckSectionSpacing and CheckAccess (Sections)
--   Tokens            CheckCheck with its tables (Macros), CheckAltTokens, CheckPosixThreading,
--                     CheckInvalidIncrement, CheckComment, CheckForMultilineCommentsAndStrings and
--                     CheckMakePairUsesDeduction (Lines)
--   Needs             UpdateIncludeState and CheckForIncludeWhatYouUse (Check), with the tables of headers
--   Repository        FileInfo and GetHeaderGuardCPPVariable
--   Spacing           CheckSpacing, a file for each group of its conditions, and
--                     CheckSpacingForFunctionCall (Calls)
--   Style             GetLineWidth (Width) and CheckStyle, which calls the checks of Layout, Spacing and Tokens
--   Constructs        CheckForNonStandardConstructs
--   Language          CheckLanguage, a file for each group of its conditions, and CheckCStyleCast (Casts)
--   Process           ProcessLine and ProcessFileData, ProcessFile (File), ParseArguments and main (Command)
-- The other files below these hold the theorems, and each Examples file runs them at inputs. A
-- function keeps its name, in small letters with underscores; a method that is the same in several
-- classes carries what it belongs to.
--
-- Loops. A loop over the characters or the lines of a list is a recursion on the list. The loops
-- that go on with a part of what a pattern has matched run on fuel: one unit for each character of
-- the line (take_namespaces and take_tokens of Update), for each character and line (find_next,
-- find_previous), for each line (RemoveMultiLineComments). Each round takes at least one
-- character, or moves to a later line, so that this fuel is enough. find_root of RepositoryName
-- takes one unit for each character of the name, since a directory's name is shorter. The loop of
-- CheckBraces that joins lines and the one of RepositoryName through Subversion directories may
-- not end, and their fuel is an argument; CheckStyle gives the first one unit for each line up to
-- its own, and the result none of ProcessFileData stands for the loop that does not end, and for
-- the exception of math.log in the check of a function's length at a negative verbosity level.
--
-- Conventions. Line numbers and positions are natural numbers, and where the program has -1 or
-- None the model has the constructor none of Option; where Python would raise an IndexError, a
-- KeyError or an AssertionError, a definition says so. `lower`, `upper` and `isalnum` are those of
-- ASCII. The confidence is a natural number and the verbosity level any integer. A pattern under
-- `*` always reads a character in the patterns of the program, so the matcher tries no empty
-- round.
--
-- The calls `error(...)` under an `if` are `error_if` of Lint/Report.antt, and a file's checks are
-- those lists one behind the other. In the Proper files a rule for each way to build such a list
-- is kept in a ruleset, so that the theorem on whole files follows by search, check by check;
-- Process/Branches has the ways in which ProcessFile returns, from which Quiet and Accounts
-- follow.
--
-- Not modelled: the file system, standard input, os.linesep and the tables of unicodedata, which
-- are arguments (the record System of Process/File.antt); getopt and int, whose results
-- ParseArguments takes as an argument; the text of the usage; the encoding of stderr; and the
-- extra check functions of ProcessLine, of which main passes none. The kernel sources in src,
-- common and tools and the tests in test are C++ and assembly; third_party holds a copy of another
-- project.
pub mod Base
pub mod Regex
pub mod Lint
pub mod Paths
pub mod Headers
pub mod Comments
pub mod Lines
pub mod Brackets
pub mod Guard
pub mod Functions
pub mod Nesting
pub mod Whole
pub mod Layout
pub mod Angles
pub mod TextInside
pub mod Spacing
pub mod Style
pub mod Constructs
pub mod Language
pub mod Process
pub mod Tokens
pub mod Needs
pub mod Repository
